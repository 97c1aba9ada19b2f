-- ===== src/Connection/Tests.antt =====
-- Received bytes at concrete inputs.
use game_project.Base.{
  ℕ, suc, ◌≡◌, refl, none, some, List, [], ◌∷◌, ◌++◌, ok, fault, out_of_range, no_progress, inl,
  arith, replicate,
}
use game_project.Connection.{Current, dw_size, extract_loop, extract_buffer}
use game_project.Connection.Frames.{zero_size_no_progress}
use game_project.Connection.Large.{extract_buffer_large, extract_buffer_completes}
use game_project.Connection.BadSize.{huge_size_overflows}

-- A header that asks for `a + 256 b + 65536 c + 2^24 d` bytes, and a packet of 30 bytes.
abbrev header : ℕ → ℕ → ℕ → ℕ → List ℕ
header a b c d = replicate 8 0 ++ (a ∷ b ∷ c ∷ d ∷ replicate 16 0)

abbrev packet : List ℕ
packet = header 30 0 0 0 ++ (1 ∷ 2 ∷ [])

zero_size_no_progress_example :
    extract_loop 50 (record { data_buf = header 0 0 0 0; current = none }) ≡ fault no_progress
zero_size_no_progress_example = zero_size_no_progress 50 (header 0 0 0 0) (omega arith) refl

-- The header of a packet of 12,288 bytes.
extract_buffer_large_example :
    extract_buffer (record { data_buf = header 0 48 0 0; current = none })
    ≡ ok (
      [],
      record {
        data_buf = [];
        current = some (record { size = dw_size (header 0 48 0 0); received = header 0 48 0 0 });
      },
    )
extract_buffer_large_example =
    extract_buffer_large 0 (replicate 7 0 ++ (0 ∷ 48 ∷ 0 ∷ 0 ∷ replicate 16 0))
      (record { long = omega arith; more = omega arith; large = omega arith; short = omega arith })

abbrev started : Current
started = record { size = 5; received = 1 ∷ 2 ∷ [] }

extract_buffer_completes_example :
    extract_buffer (record { data_buf = (3 ∷ 4 ∷ 5 ∷ []) ++ (9 ∷ []); current = some started })
    ≡ ok ((1 ∷ 2 ∷ 3 ∷ 4 ∷ 5 ∷ []) ∷ [], record { data_buf = 9 ∷ []; current = none })
extract_buffer_completes_example =
    extract_buffer_completes 3 (4 ∷ 5 ∷ []) (9 ∷ []) started refl (inl (omega arith))

huge_size_overflows_example :
    extract_loop
      (suc 3)
      (record { data_buf = header 0 0 0 128 ++ replicate 1000 0; current = none })
    ≡ fault out_of_range
huge_size_overflows_example =
    huge_size_overflows 3 (header 0 0 0 128 ++ replicate 1000 0) (omega arith) (omega arith)
      (omega arith)
