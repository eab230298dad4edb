-- ===== src/ArpGlean/Tests.antt =====
-- The rule at concrete inputs.
use blobly_emb.Prelude.{ltb, ℕ, ◌+◌, ◌%◌, ◌^◌, ◌≤◌, ◌<◌, ◌≡◌, ◌⊎◌, if◌then◌else◌, ◌==◌, arith, refl}
use blobly_emb.ArpGlean.{split, source, eth_hdr}
use blobly_emb.ArpGlean.Source.{IsMac, source_sound}

-- A broadcast frame at address 100 from 2:7:7:7:7:7.
abbrev frame : ℕ → ℕ
frame i =
    if i == 106
    then 2
    else if i == 112
    then 8
    else if i == 113
    then 0
    else if ltb i 106
    then 255
    else 7

frame_small : (i : ℕ) → frame i < 2 ^ 8
frame_small i = ground arith

abbrev own : ℕ → ℕ
own i = i % 7

own_small : (i : ℕ) → own i < 2 ^ 8
own_small i = omega arith

abbrev from_519 : ℕ × ℕ
from_519 = (519, 117901063)

source_sound_example :
    (90 + eth_hdr ≤ 114)
    × (frame 112 ≡ 0x08)
    × (frame 113 ≡ 0x00)
    × ((IsMac frame 100 0 1 2 3 4 5) ⊎ (IsMac frame 100 255 255 255 255 255 255))
    × (frame 106 % 2 ≡ 0)
    × (from_519 ≡ split frame 106)
    × (0 < 519 + 117901063)
unfolding source split
source_sound_example = source_sound frame 90 114 own from_519 frame_small own_small refl
