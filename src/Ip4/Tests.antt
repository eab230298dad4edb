-- ===== src/Ip4/Tests.antt =====
-- The address of a bench, in the byte order of the network stack.
use blobly_emb.Prelude.{ℕ, ◌+◌, ◌*◌, ◌≡◌, arith}
use blobly_emb.Ip4.{parse_ip4}
use blobly_emb.Ip4.Quad.{quad, parse_ip4-quad}

abbrev high_first : ℕ → ℕ → ℕ → ℕ → ℕ
high_first a b c d = a * 16777216 + b * 65536 + c * 256 + d

parse_ip4-quad_example : parse_ip4 high_first (quad 192 168 0 50) ≡ high_first 192 168 0 50
parse_ip4-quad_example =
    parse_ip4-quad high_first 192 168 0 50 (omega arith) (omega arith) (omega arith) (omega arith)
