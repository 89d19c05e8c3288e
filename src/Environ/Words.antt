-- ===== src/Environ/Words.antt =====
-- The strings in the main of tlpi/c6/6.3.c.
use textbooks.Base.{ℕ, List, [], ◌∷◌}

-- "hello"
abbrev pub hello : List ℕ
hello = 104 ∷ (101 ∷ (108 ∷ (108 ∷ (111 ∷ []))))

-- "hello2"
abbrev pub hello2 : List ℕ
hello2 = 104 ∷ (101 ∷ (108 ∷ (108 ∷ (111 ∷ (50 ∷ [])))))

-- "hello3"
abbrev pub hello3 : List ℕ
hello3 = 104 ∷ (101 ∷ (108 ∷ (108 ∷ (111 ∷ (51 ∷ [])))))

-- "world"
abbrev pub world : List ℕ
world = 119 ∷ (111 ∷ (114 ∷ (108 ∷ (100 ∷ []))))

-- "world1"
abbrev pub world1 : List ℕ
world1 = 119 ∷ (111 ∷ (114 ∷ (108 ∷ (100 ∷ (49 ∷ [])))))

-- "world2"
abbrev pub world2 : List ℕ
world2 = 119 ∷ (111 ∷ (114 ∷ (108 ∷ (100 ∷ (50 ∷ [])))))

-- "world3"
abbrev pub world3 : List ℕ
world3 = 119 ∷ (111 ∷ (114 ∷ (108 ∷ (100 ∷ (51 ∷ [])))))

-- "after putting...."
abbrev pub putting : List ℕ
putting =
    97
    ∷ (102
        ∷ (116
            ∷ (101
                ∷ (114
                    ∷ (32
                        ∷ (112
                            ∷ (117
                                ∷ (116
                                    ∷ (116
                                        ∷ (105
                                            ∷ (110
                                                ∷ (103 ∷ (46 ∷ (46 ∷ (46 ∷ (46 ∷ []))))))))))))))))

-- "overwrite: 0; shouldn't update...."
abbrev pub kept : List ℕ
kept =
    111
    ∷ (118
        ∷ (101
            ∷ (114
                ∷ (119
                    ∷ (114
                        ∷ (105
                            ∷ (116
                                ∷ (101
                                    ∷ (58
                                        ∷ (32
                                            ∷ (48
                                                ∷ (59
                                                    ∷ (32
                                                        ∷ (115
                                                            ∷ (104
                                                            ∷ (111
                                                            ∷ (117
                                                            ∷ (108
                                                            ∷ (100
                                                            ∷ (110
                                                            ∷ (39
                                                            ∷ (116
                                                            ∷ (32
                                                            ∷ (117
                                                            ∷ (112
                                                            ∷ (100
                                                            ∷ (97
                                                            ∷ (116
                                                            ∷ (101
                                                            ∷ (46
                                                            ∷ (46
                                                            ∷ (46
                                                            ∷ (46
                                                            ∷ [])))))))))))))))))))))))))))))))))

-- "after updating and putting...."
abbrev pub updating : List ℕ
updating =
    97
    ∷ (102
        ∷ (116
            ∷ (101
                ∷ (114
                    ∷ (32
                        ∷ (117
                            ∷ (112
                                ∷ (100
                                    ∷ (97
                                        ∷ (116
                                            ∷ (105
                                                ∷ (110
                                                    ∷ (103
                                                        ∷ (32
                                                            ∷ (97
                                                            ∷ (110
                                                            ∷ (100
                                                            ∷ (32
                                                            ∷ (112
                                                            ∷ (117
                                                            ∷ (116
                                                            ∷ (116
                                                            ∷ (105
                                                            ∷ (110
                                                            ∷ (103
                                                            ∷ (46
                                                            ∷ (46
                                                            ∷ (46
                                                            ∷ (46 ∷ [])))))))))))))))))))))))))))))

-- "after unsetting hello...."
abbrev pub unset_hello : List ℕ
unset_hello =
    97
    ∷ (102
        ∷ (116
            ∷ (101
                ∷ (114
                    ∷ (32
                        ∷ (117
                            ∷ (110
                                ∷ (115
                                    ∷ (101
                                        ∷ (116
                                            ∷ (116
                                                ∷ (105
                                                    ∷ (110
                                                        ∷ (103
                                                            ∷ (32
                                                            ∷ (104
                                                            ∷ (101
                                                            ∷ (108
                                                            ∷ (108
                                                            ∷ (111
                                                            ∷ (46
                                                            ∷ (46
                                                            ∷ (46 ∷ (46 ∷ []))))))))))))))))))))))))

-- "after unsetting hello3 (non-existent)...."
abbrev pub unset_hello3 : List ℕ
unset_hello3 =
    97
    ∷ (102
        ∷ (116
            ∷ (101
                ∷ (114
                    ∷ (32
                        ∷ (117
                            ∷ (110
                                ∷ (115
                                    ∷ (101
                                        ∷ (116
                                            ∷ (116
                                                ∷ (105
                                                    ∷ (110
                                                        ∷ (103
                                                            ∷ (32
                                                            ∷ (104
                                                            ∷ (101
                                                            ∷ (108
                                                            ∷ (108
                                                            ∷ (111
                                                            ∷ (51
                                                            ∷ (32
                                                            ∷ (40
                                                            ∷ (110
                                                            ∷ (111
                                                            ∷ (110
                                                            ∷ (45
                                                            ∷ (101
                                                            ∷ (120
                                                            ∷ (105
                                                            ∷ (115
                                                            ∷ (116
                                                            ∷ (101
                                                            ∷ (110
                                                            ∷ (116
                                                            ∷ (41
                                                            ∷ (46
                                                            ∷ (46
                                                            ∷ (46
                                                            ∷ (46
                                                            ∷ []))))))))))))))))))))))))))))))))))))))))
