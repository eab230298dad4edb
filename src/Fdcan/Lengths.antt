-- ===== src/Fdcan/Lengths.antt =====
-- driver/can/can_fdcan.c, the length codes of CAN-FD.
use blobly_emb.Prelude.{ℕ, ◌≤◌, ◌<◌, ◌≡◌, ◌↔◌, if◌then◌else◌, leb, ◌==◌, low_bits, arith}

-- `dlc_to_len`, its table written as cases
unfoldable pub dlc_to_len : ℕ → ℕ
dlc_to_len dlc =
    let d = low_bits dlc 4 in
    if leb d 8
    then d
    else if d == 9
    then 12
    else if d == 10
    then 16
    else if d == 11
    then 20
    else if d == 12
    then 24
    else if d == 13
    then 32
    else if d == 14
    then 48
    else 64

-- `len_to_dlc`
unfoldable pub len_to_dlc : ℕ → ℕ
len_to_dlc len =
    if leb len 8
    then len
    else if leb len 12
    then 9
    else if leb len 16
    then 10
    else if leb len 20
    then 11
    else if leb len 24
    then 12
    else if leb len 32
    then 13
    else if leb len 48
    then 14
    else 15

-- Every code of four bits is the code of its length, and for a length of at most 64 bytes
-- `len_to_dlc` gives the least code whose length holds it.
pub len_to_dlc_least :
    (dlc len : ℕ)
    → dlc < 16
    → len ≤ 64
    → (len_to_dlc (dlc_to_len dlc) ≡ dlc) × (len ≤ dlc_to_len dlc ↔ len_to_dlc len ≤ dlc)
unfolding dlc_to_len len_to_dlc
len_to_dlc_least dlc len hd hl = (ground arith, (λ e. ground arith, λ e. ground arith))
