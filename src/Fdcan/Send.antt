-- ===== src/Fdcan/Send.antt =====
-- driver/can/can_fdcan.c: when blob_can_send takes a frame, and what it writes.
use blobly_emb.Prelude.{
  ℕ, ◌+◌, ◌*◌, ◌≤◌, ◌<◌, ◌≡◌, ◌↔◌, ◌⊎◌, ap, dec_lt, ok, Bool, true, false, arith,
}
use blobly_emb.Fdcan.{
  Config, Can, region_off, region_words, rx0_elmts, tx_elmts, elmt_words, busoff_poll,
}
use blobly_emb.Fdcan.Lengths.{dlc_to_len}
use blobly_emb.Fdcan.Io.{sent_dlc, put_element, sendable, send_inst}

-- `blob_can_send` returns 0 exactly if the core takes a frame and the frame is one the bus can
-- carry: an exact length of CAN-FD, at most 8 bytes outside FD, FD only on a bus opened for it.
pub send-ok :
    (cfg : Config) (h id : ℕ) (payload : ℕ → ℕ) (len flags : ℕ) (d : Can)
    → let q = busoff_poll d h in
      ((send_inst cfg h id payload len flags d).0 ≡ ok) ↔ (
        (sendable (q.port h).fd len flags ≡ true)
        × ((q.reg h).tfqf ≡ false)
        × ((q.reg h).tfqpi < tx_elmts))
unfolding send_inst
send-ok cfg h id payload len flags d = (λ e. ground arith, λ e. ground arith)

dlc_to_len_le : (dlc : ℕ) → dlc_to_len dlc ≤ 64
unfolding dlc_to_len
dlc_to_len_le dlc = ground arith

put_outside :
    (ram : ℕ → ℕ) (e : ℕ) (nobrs : Bool) (id : ℕ) (payload : ℕ → ℕ) (len flags j : ℕ)
    → (j < e) ⊎ (e + elmt_words ≤ j)
    → put_element ram e nobrs id payload len flags j ≡ ram j
unfolding put_element
put_outside ram e nobrs id payload len flags j out =
    ground (arith, dlc_to_len_le (sent_dlc len flags))

poll-ram : (d : Can) (h : ℕ) → (busoff_poll d h).ram ≡ d.ram
unfolding busoff_poll
poll-ram d h = ground arith

-- `blob_can_send` writes no word of the message RAM but the 144 of the core's own Tx FIFO.
pub send_stays_inside :
    (cfg : Config) (h id : ℕ) (payload : ℕ → ℕ) (len flags : ℕ) (d : Can) (j : ℕ)
    → (j < region_off h + rx0_elmts * elmt_words) ⊎ (region_off h + region_words ≤ j)
    → (send_inst cfg h id payload len flags d).1.ram j ≡ d.ram j
unfolding send_inst
send_stays_inside cfg h id payload len flags d j out =
    let q = busoff_poll d h in
    let same = ap (λ ram. ram j) (poll-ram d h) in
    elim (dec_lt (q.reg h).tfqpi tx_elmts) [
      | yes lt ↦ ground (
        arith,
        same,
        put_outside q.ram (region_off h + rx0_elmts * elmt_words + (q.reg h).tfqpi * elmt_words)
            cfg.nobrs id payload len flags j (omega arith),
      )
      | no ge ↦ ground (arith, same)
    ]
