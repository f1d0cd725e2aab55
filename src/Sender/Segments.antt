-- ===== src/Sender/Segments.antt =====
-- The segments of the data, and the packets that carry them.
use mathlib.Core.List.{flatten}
use hybrid_ftp.Base.{
  ℕ, zero, suc, ◌+◌, ◌^◌, ◌≤◌, ◌<◌, min, ◌≡◌, refl, ap, ◌∙◌, none, some, List, [], ◌∷◌, ◌++◌, arith,
  length, take, drop, All, take-append-drop, length-take, length-drop,
}
use hybrid_ftp.Header.{header_size, set_flag}
use hybrid_ftp.Header.Packet.{length-make_packet, Reads, make_packet-Reads}
use hybrid_ftp.Sender.{
  segments_loop, at_least_one, segments, data_header, data_packet, fin_header, fin_packet,
}

-- With a positive MSS the loop ends, and its segments are the data in order, each of 1 to MSS bytes.
segments_loop_lem :
    (fuel mss : ℕ) (content : List ℕ)
    → 0 < mss
    → length content ≤ fuel
    → (segs : List (List ℕ)) × (segments_loop fuel mss content ≡ some segs)
      × (flatten segs ≡ content)
      × All (λ seg. (0 < length seg) × (length seg ≤ mss)) segs
unfolding segments_loop flatten
segments_loop_lem fuel mss [] pos le = ([], refl, refl, tt)
segments_loop_lem zero mss (x ∷ xs) pos le = absurd (omega arith)
segments_loop_lem (suc fuel) mss (x ∷ xs) pos le =
    let size : ℕ = min mss (length (x ∷ xs)) in
    let (segs, found, joined, sizes) =
      segments_loop_lem fuel mss (drop size (x ∷ xs)) pos
        (omega (arith, length-drop size (x ∷ xs))) in
    (
      take size (x ∷ xs) ∷ segs,
      rw found refl,
      ap (λ r. take size (x ∷ xs) ++ r) joined ∙ take-append-drop size (x ∷ xs),
      (omega (arith, length-take size (x ∷ xs)), sizes),
    )

-- With a positive MSS `sendData` gets its segments: together they are the data, there is one at
-- least, and none is longer than the MSS.
pub segments_lem :
    (mss : ℕ) (content : List ℕ)
    → 0 < mss
    → (segs : List (List ℕ)) × (segments mss content ≡ some segs)
      × (flatten segs ≡ content)
      × (0 < length segs)
      × All (λ seg. length seg ≤ mss) segs
unfolding segments at_least_one flatten
segments_lem mss content pos =
    let (segs, found, joined, sizes) =
      segments_loop_lem (length content) mss content pos (omega arith) in
    from_loop segs found joined sizes
  where
    at_most :
        (segs : List (List ℕ))
        → All (λ seg. (0 < length seg) × (length seg ≤ mss)) segs
        → All (λ seg. length seg ≤ mss) segs
    at_most [] h = tt
    at_most (seg ∷ segs) h = (h.0.1, at_most segs h.1)

    from_loop :
        (segs : List (List ℕ))
        → segments_loop (length content) mss content ≡ some segs
        → flatten segs ≡ content
        → All (λ seg. (0 < length seg) × (length seg ≤ mss)) segs
        → (segs : List (List ℕ)) × (segments mss content ≡ some segs)
          × (flatten segs ≡ content)
          × (0 < length segs)
          × All (λ seg. length seg ≤ mss) segs
    from_loop [] found joined sizes = ([] ∷ [], rw found refl, joined, omega arith, omega arith)
    from_loop (seg ∷ segs) found joined sizes =
        (seg ∷ segs, rw found refl, joined, omega arith, (sizes.0.1, at_most segs sizes.1))

-- With an MSS of 0 the loop makes no progress on data that is not empty, whatever the fuel.
pub segments_loop_zero : (fuel x : ℕ) (xs : List ℕ) → segments_loop fuel 0 (x ∷ xs) ≡ none
unfolding segments_loop
segments_loop_zero zero x xs = refl
segments_loop_zero (suc fuel) x xs =
    let stay : min 0 (length (x ∷ xs)) ≡ 0 = omega arith in
    rw (stay, segments_loop_zero fuel x xs) refl

pub data_packet-Reads :
    (window seq : ℕ) (content : List ℕ)
    → seq < 2 ^ 32
    → Reads (data_packet window seq content) (data_header window seq (length content)) content
unfolding data_packet
data_packet-Reads window seq content h =
    make_packet-Reads _ content (unfold set_flag in omega arith)

pub length-data_packet :
    (window seq : ℕ) (content : List ℕ)
    → length (data_packet window seq content) ≡ header_size + length content
unfolding data_packet
length-data_packet window seq content = length-make_packet _ content

pub fin_packet-Reads :
    (window seq : ℕ) → seq < 2 ^ 32 → Reads (fin_packet window seq) (fin_header window seq) []
unfolding fin_packet
fin_packet-Reads window seq h = make_packet-Reads _ [] (unfold set_flag in omega arith)

pub length-fin_packet : (window seq : ℕ) → length (fin_packet window seq) ≡ header_size
unfolding fin_packet
length-fin_packet window seq = length-make_packet _ []
