-- ===== src/Posix/Files.antt =====
-- What the calls are about: descriptors, open file descriptions and files, and the calls' effects.
use Prim.Native.String.{String}
use text.Mathlib.Text.{◌==◌ as str_eq}
use textbooks.Base.{
  ℕ, ◌+◌, ◌-◌, Bool, true, false, ◌||◌, Option, none, some, List, [], ◌++◌, length, take, drop,
  replicate, ◌==◌, if◌then◌else◌,
}
use textbooks.Posix.Calls.{Whence, seek_set, seek_cur, seek_end, OpenFlags}

-- A descriptor refers to a description, which has an offset into a file, its inode.
pub record View : Type 0 where
  pub desc : ℕ → Option ℕ
  pub inode : ℕ → ℕ
  pub offset : ℕ → ℕ
  pub append : ℕ → Bool
  pub file : ℕ → List ℕ
  pub named : String → Option ℕ

abbrev pub update {ℓ} : {A : Type ℓ} → (ℕ → A) → ℕ → A → ℕ → A
update f i a j = if j == i then a else f j

-- The bytes `bs` put at `o`; a gap behind the end is filled with null bytes.
abbrev pub splice : List ℕ → ℕ → List ℕ → List ℕ
splice c o [] = c
splice c o bs = take o (c ++ replicate (o - length c) 0) ++ (bs ++ drop (o + length bs) c)

abbrev pub file_of : View → ℕ → List ℕ
file_of v d = v.file (v.inode d)

-- Where a write on the description begins.
abbrev pub write_at : View → ℕ → ℕ
write_at v d = if v.append d then length (file_of v d) else v.offset d

abbrev pub move : View → ℕ → ℕ → View
move v d o = record v { offset = update v.offset d o }

abbrev pub written : View → ℕ → List ℕ → View
written v d [] = v
written v d bs = record v {
  offset = update v.offset d (write_at v d + length bs);
  file = update v.file (v.inode d) (splice (file_of v d) (write_at v d) bs);
}

abbrev pub origin : View → ℕ → Whence → ℕ
origin v d seek_set = 0
origin v d seek_cur = v.offset d
origin v d seek_end = length (file_of v d)

abbrev pub is_none {ℓ} : {A : Type ℓ} → Option A → Bool
is_none none = true
is_none (some _) = false

abbrev pub opened : View → String → OpenFlags → ℕ → ℕ → ℕ → View
opened v path flags fd d i = record v {
  desc = update v.desc fd (some d);
  inode = update v.inode d i;
  offset = update v.offset d 0;
  append = update v.append d flags.append;
  file = if flags.truncate || is_none (v.named path) then update v.file i [] else v.file;
  named = λ name. if str_eq name path then some i else v.named name;
}
