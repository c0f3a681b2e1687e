-- ===== src/Keyboard/Layout.antt =====
-- `kbdmap` of kernel/keyboardLayout.cpp: four characters for each key, plain, with shift and two more.
use sepples_os.Prelude.{ℕ, List, [], ◌∷◌}

abbrev pub row : ℕ → ℕ → ℕ → ℕ → List ℕ → List ℕ
row a b c d rest = a ∷ b ∷ c ∷ d ∷ rest

abbrev pub kbdmap : List ℕ
kbdmap =
    (row 27 27 27 27 (
      row 49 33 49 49 (
        row 50 64 50 50 (
          row 51 35 51 51 (
            row 52 36 52 52 (
              row 53 37 53 53 (
                row 54 94 54 54 (
                  row 55 38 55 55 (
                    row 56 42 56 56 (
                      row 57 40 57 57 (
                        row 48 41 48 48 (
                          row 45 95 45 45 (
                            row 61 43 61 61 (
                              row 8 8 127 8 (
                                row 9 9 9 9 (
                                  row 113 81 113 113 (
                                    row 119 87 119 119 (
                                      row 101 69 101 101 (
                                        row 114 82 114 114 (
                                          row 116 84 116 116 (
                                            row 121 89 121 121 (
                                              row 117 85 117 117 (
                                                row 105 73 105 105 (
                                                  row 111 79 111 111 (
                                                    row 112 80 112 112 (
                                                      row 91 123 91 91 (
                                                        row 93 125 93 93 (
                                                          row 10 10 10 10 (
                                                            row 255 255 255 255 (
                                                            row 97 65 97 97 (
                                                            row 115 83 115 115 (
                                                            row 100 68 100 100 (
                                                            row 102 70 102 102 (
                                                            row 103 71 103 103 (
                                                            row 104 72 104 104 (
                                                            row 106 74 106 106 (
                                                            row 107 75 107 107 (
                                                            row 108 76 108 108 (
                                                            row 59 58 59 59 (
                                                            row 39 34 39 39 (
                                                            row 96 126 96 96 (
                                                            row 255 255 255 255 (
                                                            row 92 124 92 92 (
                                                            row 122 90 122 122 (
                                                            row 120 88 120 120 (
                                                            row 99 67 99 99 (
                                                            row 118 86 118 118 (
                                                            row 98 66 98 98 (
                                                            row 110 78 110 110 (
                                                            row 109 77 109 109 (
                                                            row 44 60 44 44 (
                                                            row 46 62 46 46 (
                                                            row 47 63 47 47 (
                                                            row 255 255 255 255 (
                                                            row 42 255 255 255 (
                                                            row 255 255 255 255 (
                                                            row 32 32 32 32 (
                                                            row 255 255 255 255 (
                                                            row 255 255 255 255 (
                                                            row 255 255 255 255 (
                                                            row 255 255 255 255 (
                                                            row 255 255 255 255 (
                                                            row 255 255 255 255 (
                                                            row 255 255 255 255 (
                                                            row 255 255 255 255 (
                                                            row 255 255 255 255 (
                                                            row 255 255 255 255 (
                                                            row 255 255 255 255 (
                                                            row 255 255 255 255 (
                                                            row 255 255 255 255 (
                                                            row 55 255 255 255 (
                                                            row 56 255 255 255 (
                                                            row 57 255 255 255 (
                                                            row 45 255 255 255 (
                                                            row 52 255 255 255 (
                                                            row 53 255 255 255 (
                                                            row 54 255 255 255 (
                                                            row 43 255 255 255 (
                                                            row 49 255 255 255 (
                                                            row 50 255 255 255 (
                                                            row 51 255 255 255 (
                                                            row 48 255 255 255 (
                                                            row 46 255 255 255 (
                                                            row 255 255 255 255 (
                                                            row 255 255 255 255 (
                                                            row 255 255 255 255 (
                                                            row 255 255 255 255 (
                                                            row 255 255 255 255 (
                                                            row 255 255 255 255 (
                                                            row 255 255 255 255 (
                                                            row 255 255 255 255 (
                                                            row 255 255 255 255 (
                                                            row 255 255 255 255 (
                                                            row 255 255 255 255 (
                                                            row 255 255 255 255 (
                                                            row 255 255 255 255
                                                            (row 255 255 255 255 [])))))))))))))))))
                                                            ))))))))))))))))))))))))))))))))))))))))
                                                            ))))))))))))))))))))))))))))))))))))))))
