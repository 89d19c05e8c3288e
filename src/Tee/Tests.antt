-- ===== src/Tee/Tests.antt =====
-- tee.c on streams held in lists, which give a byte at a time.
use Prim.Native.String.{String}
use textbooks.Base.{
  ℕ, ◌≡◌, ◌≤◌, ◌⊎◌, refl, ap, inr, true, Option, none, some, List, [], ◌∷◌, ◌++◌, arith, length,
  length-take, take, drop, min, out_of_fuel,
}
use textbooks.Posix.{Posix, Blames, update}
use textbooks.Posix.Splice.{take_all}
use textbooks.Tee.Defs.{
  Flag, append_flag, Console, max_bytes, stdin_fileno, tee_turn, tee_loop, tee_up, tee_operand,
  tee_options, tee_main,
}
use textbooks.Tee.Turns.{IsStreams}
use textbooks.Tee.Theorems.{Running, tee_main-Running}

-- What still comes from the standard input, and what went to each descriptor.
record Pipes : Type 0 where
  pub input : List ℕ
  pub output : ℕ → List ℕ

abbrev byte_read : ℕ → ℕ → Pipes → Option (List ℕ) × Pipes
byte_read fd n s =
    let m = min n (min 1 (length s.input)) in
    (some (take m s.input), record s { input = drop m s.input })

abbrev pipes : Posix
pipes = record {
  State = Pipes;
  open_file = λ path flags s. (some 5, s);
  read = byte_read;
  write =
      λ fd bs s. (some (length bs), record s { output = update s.output fd (s.output fd ++ bs) });
  lseek = λ fd z w s. (some 0, s);
  close = λ fd s. (true, s);
  fsync = λ fd s. (none, s);
  err_msg = λ s. s;
}

abbrev console : Console pipes
console = record { report = λ append filename s. s; flush = λ s. s }

pipes-IsStreams : IsStreams pipes console
pipes-IsStreams = record {
  incoming = λ s. s.input;
  outgoing = λ fd s. s.output fd;
  reads = λ n s. (
    λ out. refl,
    inr (min n (min 1 (length s.input)), refl, omega arith, λ p q. omega arith, refl),
  );
  writes = λ fd bs s. (
    refl,
    λ out ne. ground arith,
    inr (length bs, refl, omega arith, rw (take_all (length bs) bs (omega arith)) (ground arith)),
  );
  flushes = λ s. (refl, λ out. refl);
}

-- No call fails.
no_reason : Blames pipes ⊥
no_reason = record {
  opening = λ path flags s h. cc;
  reading = λ fd n s h. cc;
  writing = λ fd bs s h. h refl;
  seeking = λ fd z w s h. cc;
  closing = λ fd s h. cc;
  syncing = λ fd s h. h refl;
}

not_full :
    (s : Pipes) (bs : List ℕ)
    → (byte_read stdin_fileno max_bytes s).0 ≡ some bs
    → max_bytes ≤ length bs
    → ⊥
not_full s bs e full =
    let m = min max_bytes (min 1 (length s.input)) in
    let given : take m s.input ≡ bs = cc in
    omega (arith, full, ap (λ (l : List ℕ). length l) given, length-take m s.input)

abbrev start : Pipes
start = record { input = 7 ∷ (8 ∷ []); output = λ _. [] }

abbrev options : List String → List Flag × ℕ
options argv = (append_flag ∷ [], 2)

abbrev arguments : List String
arguments = "tee" ∷ ("-a" ∷ ("f" ∷ []))

-- Two turns would be enough for the input, but the loop goes on.
endless : tee_main pipes console options 9 arguments start ≡ out_of_fuel
unfolding tee_turn tee_loop tee_up tee_operand tee_options tee_main
endless = refl

abbrev nine : ℕ
nine = 9

tee_main-Running_example :
    ⊥
    ⊎ (Running pipes console pipes-IsStreams no_reason not_full
          (λ append filename s. refl)
          (λ filename append s. refl)
          (λ filename append fd s e q. ground (arith, e, q))
          "f"
          2
          arguments
          refl
          nine
          true
          start
          (λ fuel. tee_main pipes console options fuel arguments start)
        × (tee_main pipes console options nine arguments start ≡ out_of_fuel))
unfolding pipes-IsStreams
tee_main-Running_example =
    tee_main-Running pipes console pipes-IsStreams no_reason not_full (λ append filename s. refl)
      (λ filename append s. refl) (λ filename append fd s e q. ground (arith, e, q)) "f" 2 arguments
      refl options (append_flag ∷ []) true 9 start refl refl
