-- ===== src/Programs/Sum.antt =====
-- `simpleSum` of src/rdt/FileTransferClient.cpp and src/rdt/FileTransferServer.cpp.
use hybrid_ftp.Base.{ℕ, ◌+◌, ◌%◌, ◌^◌, ◌<◌, ◌≡◌, ◌∙◌, List, [], ◌∷◌, arith}
use hybrid_ftp.Programs.{sum_loop, simple_sum}

-- The sum of all bytes.
pub sum : List ℕ → ℕ
sum [] = 0
sum (b ∷ bs) = b + sum bs

sum_loop_lem :
    (acc : ℕ) (bytes : List ℕ) → acc < 2 ^ 32 → sum_loop acc bytes ≡ (acc + sum bytes) % 2 ^ 32
unfolding sum_loop sum
sum_loop_lem acc [] h = omega arith
sum_loop_lem acc (b ∷ bs) h = sum_loop_lem ((acc + b) % 2 ^ 32) bs (omega arith) ∙ omega arith

-- The loop wraps around at each byte; its result is the sum of all bytes, modulo 2 ^ 32.
simple_sum_lem : (bytes : List ℕ) → simple_sum bytes ≡ sum bytes % 2 ^ 32
unfolding simple_sum
simple_sum_lem bytes = sum_loop_lem 0 bytes (omega arith) ∙ omega arith
