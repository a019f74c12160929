-- ===== src/Errno/Table.antt =====
-- The texts of src/errno.c: the table of the library's own codes, whose entries EM_BUILD_ERR of
-- include/em/errno.h makes, and the literals of `emlib_error` and `em_strerror`, as bytes.
use emlib.Prelude.{ℕ, List, [], ◌∷◌, Bytes}

-- "Success"
abbrev pub success_text : Bytes
success_text = 83 ∷ 117 ∷ 99 ∷ 99 ∷ 101 ∷ 115 ∷ 115 ∷ []

-- "Unknown error "
abbrev pub unknown_error_text : Bytes
unknown_error_text =
    85 ∷ 110 ∷ 107 ∷ 110 ∷ 111 ∷ 119 ∷ 110 ∷ 32 ∷ 101 ∷ 114 ∷ 114 ∷ 111 ∷ 114 ∷ 32 ∷ []

-- "Unknown emlib error "
abbrev pub unknown_emlib_error_text : Bytes
unknown_emlib_error_text =
    85 ∷ 110 ∷ 107 ∷ 110 ∷ 111 ∷ 119 ∷ 110 ∷ 32 ∷ 101 ∷ 109 ∷ 108 ∷ 105 ∷ 98 ∷ 32 ∷ 101 ∷ 114 ∷ 114
    ∷ 111 ∷ 114 ∷ 32 ∷ []

-- The first entries of `err_str`
abbrev pub common_errors : List (ℕ × Bytes)
common_errors =
    (
      70001,
      85 ∷ 110 ∷ 107 ∷ 110 ∷ 111 ∷ 119 ∷ 110 ∷ 32 ∷ 69 ∷ 114 ∷ 114 ∷ 111 ∷ 114 ∷ 32 ∷ 40 ∷ 69 ∷ 77
          ∷ 95 ∷ 69 ∷ 85 ∷ 78 ∷ 75 ∷ 78 ∷ 79 ∷ 87 ∷ 78 ∷ 41 ∷ [],
    )
    ∷ (
      70002,
      80 ∷ 101 ∷ 110 ∷ 100 ∷ 105 ∷ 110 ∷ 103 ∷ 32 ∷ 111 ∷ 112 ∷ 101 ∷ 114 ∷ 97 ∷ 116 ∷ 105 ∷ 111
          ∷ 110 ∷ 32 ∷ 40 ∷ 69 ∷ 77 ∷ 95 ∷ 69 ∷ 80 ∷ 69 ∷ 78 ∷ 68 ∷ 73 ∷ 78 ∷ 71 ∷ 41 ∷ [],
    )
    ∷ (
      70003,
      84 ∷ 111 ∷ 111 ∷ 32 ∷ 109 ∷ 97 ∷ 110 ∷ 121 ∷ 32 ∷ 99 ∷ 111 ∷ 110 ∷ 110 ∷ 101 ∷ 99 ∷ 116 ∷ 105
          ∷ 110 ∷ 103 ∷ 32 ∷ 115 ∷ 111 ∷ 99 ∷ 107 ∷ 101 ∷ 116 ∷ 115 ∷ 32 ∷ 40 ∷ 69 ∷ 77 ∷ 95 ∷ 69
          ∷ 84 ∷ 79 ∷ 79 ∷ 77 ∷ 65 ∷ 78 ∷ 89 ∷ 67 ∷ 79 ∷ 78 ∷ 78 ∷ 41 ∷ [],
    )
    ∷ (
      70004,
      73 ∷ 110 ∷ 118 ∷ 97 ∷ 108 ∷ 105 ∷ 100 ∷ 32 ∷ 118 ∷ 97 ∷ 108 ∷ 117 ∷ 101 ∷ 32 ∷ 111 ∷ 114 ∷ 32
          ∷ 97 ∷ 114 ∷ 103 ∷ 117 ∷ 109 ∷ 101 ∷ 110 ∷ 116 ∷ 32 ∷ 40 ∷ 69 ∷ 77 ∷ 95 ∷ 69 ∷ 73 ∷ 78
          ∷ 86 ∷ 65 ∷ 76 ∷ 41 ∷ [],
    )
    ∷ (
      70005,
      78 ∷ 97 ∷ 109 ∷ 101 ∷ 32 ∷ 116 ∷ 111 ∷ 111 ∷ 32 ∷ 108 ∷ 111 ∷ 110 ∷ 103 ∷ 32 ∷ 40 ∷ 69 ∷ 77
          ∷ 95 ∷ 69 ∷ 78 ∷ 65 ∷ 77 ∷ 69 ∷ 84 ∷ 79 ∷ 79 ∷ 76 ∷ 79 ∷ 78 ∷ 71 ∷ 41 ∷ [],
    )
    ∷ (
      70006,
      78 ∷ 111 ∷ 116 ∷ 32 ∷ 102 ∷ 111 ∷ 117 ∷ 110 ∷ 100 ∷ 32 ∷ 40 ∷ 69 ∷ 77 ∷ 95 ∷ 69 ∷ 78 ∷ 79 ∷ 84
          ∷ 70 ∷ 79 ∷ 85 ∷ 78 ∷ 68 ∷ 41 ∷ [],
    )
    ∷ (
      70007,
      78 ∷ 111 ∷ 116 ∷ 32 ∷ 101 ∷ 110 ∷ 111 ∷ 117 ∷ 103 ∷ 104 ∷ 32 ∷ 109 ∷ 101 ∷ 109 ∷ 111 ∷ 114
          ∷ 121 ∷ 32 ∷ 40 ∷ 69 ∷ 77 ∷ 95 ∷ 69 ∷ 78 ∷ 79 ∷ 77 ∷ 69 ∷ 77 ∷ 41 ∷ [],
    )
    ∷ (
      70008,
      66 ∷ 85 ∷ 71 ∷ 32 ∷ 68 ∷ 69 ∷ 84 ∷ 69 ∷ 67 ∷ 84 ∷ 69 ∷ 68 ∷ 33 ∷ 32 ∷ 40 ∷ 69 ∷ 77 ∷ 95 ∷ 69
          ∷ 66 ∷ 85 ∷ 71 ∷ 41 ∷ [],
    )
    ∷ (
      70009,
      79 ∷ 112 ∷ 101 ∷ 114 ∷ 97 ∷ 116 ∷ 105 ∷ 111 ∷ 110 ∷ 32 ∷ 116 ∷ 105 ∷ 109 ∷ 101 ∷ 100 ∷ 32
          ∷ 111 ∷ 117 ∷ 116 ∷ 32 ∷ 40 ∷ 69 ∷ 77 ∷ 95 ∷ 69 ∷ 84 ∷ 73 ∷ 77 ∷ 69 ∷ 68 ∷ 79 ∷ 85 ∷ 84
          ∷ 41 ∷ [],
    )
    ∷ (
      70010,
      84 ∷ 111 ∷ 111 ∷ 32 ∷ 109 ∷ 97 ∷ 110 ∷ 121 ∷ 32 ∷ 111 ∷ 98 ∷ 106 ∷ 101 ∷ 99 ∷ 116 ∷ 115 ∷ 32
          ∷ 111 ∷ 102 ∷ 32 ∷ 116 ∷ 104 ∷ 101 ∷ 32 ∷ 115 ∷ 112 ∷ 101 ∷ 99 ∷ 105 ∷ 102 ∷ 105 ∷ 101
          ∷ 100 ∷ 32 ∷ 116 ∷ 121 ∷ 112 ∷ 101 ∷ 32 ∷ 40 ∷ 69 ∷ 77 ∷ 95 ∷ 69 ∷ 84 ∷ 79 ∷ 79 ∷ 77 ∷ 65
          ∷ 78 ∷ 89 ∷ 41 ∷ [],
    )
    ∷ (
      70011,
      79 ∷ 98 ∷ 106 ∷ 101 ∷ 99 ∷ 116 ∷ 32 ∷ 105 ∷ 115 ∷ 32 ∷ 98 ∷ 117 ∷ 115 ∷ 121 ∷ 32 ∷ 40 ∷ 69
          ∷ 77 ∷ 95 ∷ 69 ∷ 66 ∷ 85 ∷ 83 ∷ 89 ∷ 41 ∷ [],
    )
    ∷ (
      70012,
      79 ∷ 112 ∷ 116 ∷ 105 ∷ 111 ∷ 110 ∷ 47 ∷ 111 ∷ 112 ∷ 101 ∷ 114 ∷ 97 ∷ 116 ∷ 105 ∷ 111 ∷ 110
          ∷ 32 ∷ 105 ∷ 115 ∷ 32 ∷ 110 ∷ 111 ∷ 116 ∷ 32 ∷ 115 ∷ 117 ∷ 112 ∷ 112 ∷ 111 ∷ 114 ∷ 116
          ∷ 101 ∷ 100 ∷ 32 ∷ 40 ∷ 69 ∷ 77 ∷ 95 ∷ 69 ∷ 78 ∷ 79 ∷ 84 ∷ 83 ∷ 85 ∷ 80 ∷ 41 ∷ [],
    )
    ∷ []

-- The other entries of `err_str`
abbrev pub other_errors : List (ℕ × Bytes)
other_errors =
    (
      70013,
      73 ∷ 110 ∷ 118 ∷ 97 ∷ 108 ∷ 105 ∷ 100 ∷ 32 ∷ 111 ∷ 112 ∷ 101 ∷ 114 ∷ 97 ∷ 116 ∷ 105 ∷ 111
          ∷ 110 ∷ 32 ∷ 40 ∷ 69 ∷ 77 ∷ 95 ∷ 69 ∷ 73 ∷ 78 ∷ 86 ∷ 65 ∷ 76 ∷ 73 ∷ 68 ∷ 79 ∷ 80 ∷ 41
          ∷ [],
    )
    ∷ (
      70014,
      79 ∷ 112 ∷ 101 ∷ 114 ∷ 97 ∷ 116 ∷ 105 ∷ 111 ∷ 110 ∷ 32 ∷ 99 ∷ 97 ∷ 110 ∷ 99 ∷ 101 ∷ 108 ∷ 108
          ∷ 101 ∷ 100 ∷ 32 ∷ 40 ∷ 69 ∷ 77 ∷ 95 ∷ 69 ∷ 67 ∷ 65 ∷ 78 ∷ 67 ∷ 69 ∷ 76 ∷ 76 ∷ 69 ∷ 68
          ∷ 41 ∷ [],
    )
    ∷ (
      70015,
      79 ∷ 98 ∷ 106 ∷ 101 ∷ 99 ∷ 116 ∷ 32 ∷ 97 ∷ 108 ∷ 114 ∷ 101 ∷ 97 ∷ 100 ∷ 121 ∷ 32 ∷ 101 ∷ 120
          ∷ 105 ∷ 115 ∷ 116 ∷ 115 ∷ 32 ∷ 40 ∷ 69 ∷ 77 ∷ 95 ∷ 69 ∷ 69 ∷ 88 ∷ 73 ∷ 83 ∷ 84 ∷ 83 ∷ 41
          ∷ [],
    )
    ∷ (
      70016,
      69 ∷ 110 ∷ 100 ∷ 32 ∷ 111 ∷ 102 ∷ 32 ∷ 102 ∷ 105 ∷ 108 ∷ 101 ∷ 32 ∷ 40 ∷ 69 ∷ 77 ∷ 95 ∷ 69
          ∷ 69 ∷ 79 ∷ 70 ∷ 41 ∷ [],
    )
    ∷ (
      70017,
      83 ∷ 105 ∷ 122 ∷ 101 ∷ 32 ∷ 105 ∷ 115 ∷ 32 ∷ 116 ∷ 111 ∷ 111 ∷ 32 ∷ 98 ∷ 105 ∷ 103 ∷ 32 ∷ 40
          ∷ 69 ∷ 77 ∷ 95 ∷ 69 ∷ 84 ∷ 79 ∷ 79 ∷ 66 ∷ 73 ∷ 71 ∷ 41 ∷ [],
    )
    ∷ (
      70018,
      103 ∷ 101 ∷ 116 ∷ 104 ∷ 111 ∷ 115 ∷ 116 ∷ 98 ∷ 121 ∷ 110 ∷ 97 ∷ 109 ∷ 101 ∷ 40 ∷ 41 ∷ 32 ∷ 104
          ∷ 97 ∷ 115 ∷ 32 ∷ 114 ∷ 101 ∷ 116 ∷ 117 ∷ 114 ∷ 110 ∷ 101 ∷ 100 ∷ 32 ∷ 101 ∷ 114 ∷ 114
          ∷ 111 ∷ 114 ∷ 32 ∷ 40 ∷ 69 ∷ 77 ∷ 95 ∷ 69 ∷ 82 ∷ 69 ∷ 83 ∷ 79 ∷ 76 ∷ 86 ∷ 69 ∷ 41 ∷ [],
    )
    ∷ (
      70019,
      83 ∷ 105 ∷ 122 ∷ 101 ∷ 32 ∷ 105 ∷ 115 ∷ 32 ∷ 116 ∷ 111 ∷ 111 ∷ 32 ∷ 115 ∷ 104 ∷ 111 ∷ 114
          ∷ 116 ∷ 32 ∷ 40 ∷ 69 ∷ 77 ∷ 95 ∷ 69 ∷ 84 ∷ 79 ∷ 79 ∷ 83 ∷ 77 ∷ 65 ∷ 76 ∷ 76 ∷ 41 ∷ [],
    )
    ∷ (
      70020,
      73 ∷ 103 ∷ 110 ∷ 111 ∷ 114 ∷ 101 ∷ 100 ∷ 32 ∷ 40 ∷ 69 ∷ 77 ∷ 95 ∷ 69 ∷ 73 ∷ 71 ∷ 78 ∷ 79 ∷ 82
          ∷ 69 ∷ 68 ∷ 41 ∷ [],
    )
    ∷ (
      70021,
      73 ∷ 80 ∷ 118 ∷ 54 ∷ 32 ∷ 105 ∷ 115 ∷ 32 ∷ 110 ∷ 111 ∷ 116 ∷ 32 ∷ 115 ∷ 117 ∷ 112 ∷ 112 ∷ 111
          ∷ 114 ∷ 116 ∷ 101 ∷ 100 ∷ 32 ∷ 40 ∷ 69 ∷ 77 ∷ 95 ∷ 69 ∷ 73 ∷ 80 ∷ 86 ∷ 54 ∷ 78 ∷ 79 ∷ 84
          ∷ 83 ∷ 85 ∷ 80 ∷ 41 ∷ [],
    )
    ∷ (
      70022,
      85 ∷ 110 ∷ 115 ∷ 117 ∷ 112 ∷ 112 ∷ 111 ∷ 114 ∷ 116 ∷ 101 ∷ 100 ∷ 32 ∷ 97 ∷ 100 ∷ 100 ∷ 114
          ∷ 101 ∷ 115 ∷ 115 ∷ 32 ∷ 102 ∷ 97 ∷ 109 ∷ 105 ∷ 108 ∷ 121 ∷ 32 ∷ 40 ∷ 69 ∷ 77 ∷ 95 ∷ 69
          ∷ 65 ∷ 70 ∷ 78 ∷ 79 ∷ 84 ∷ 83 ∷ 85 ∷ 80 ∷ 41 ∷ [],
    )
    ∷ (
      70023,
      79 ∷ 98 ∷ 106 ∷ 101 ∷ 99 ∷ 116 ∷ 32 ∷ 110 ∷ 111 ∷ 32 ∷ 108 ∷ 111 ∷ 110 ∷ 103 ∷ 101 ∷ 114 ∷ 32
          ∷ 101 ∷ 120 ∷ 105 ∷ 115 ∷ 116 ∷ 115 ∷ 32 ∷ 40 ∷ 69 ∷ 77 ∷ 95 ∷ 69 ∷ 71 ∷ 79 ∷ 78 ∷ 69 ∷ 41
          ∷ [],
    )
    ∷ (
      70024,
      83 ∷ 111 ∷ 99 ∷ 107 ∷ 101 ∷ 116 ∷ 32 ∷ 105 ∷ 115 ∷ 32 ∷ 105 ∷ 110 ∷ 32 ∷ 98 ∷ 97 ∷ 100 ∷ 32
          ∷ 115 ∷ 116 ∷ 97 ∷ 116 ∷ 101 ∷ 32 ∷ 40 ∷ 69 ∷ 77 ∷ 95 ∷ 69 ∷ 83 ∷ 79 ∷ 67 ∷ 75 ∷ 69 ∷ 84
          ∷ 83 ∷ 84 ∷ 79 ∷ 80 ∷ 41 ∷ [],
    )
    ∷ []
