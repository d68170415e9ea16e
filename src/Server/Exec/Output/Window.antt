-- ===== src/Server/Exec/Output/Window.antt =====
-- exec.rs, `fit` and `finish`: the window of a capture that is decoded. Decoding makes three bytes at
-- most of one (U+FFFD for what is invalid).
use remote_workspace.Prelude.{
  ℕ, zero, suc, ◌-◌, ◌*◌, ◌≤◌, ◌<◌, ◌≡◌, ap, sym, ◌∙◌, Bytes, false, some, inl, inr, length, take,
  drop, leb, Bool-cases, arith, length-take, length-drop, drop-drop, take-take, drop-at,
  take-eq_of_le,
}
use remote_workspace.Server.Exec.Output.{Keep, fit, trimmed, excess_of}
use remote_workspace.Server.Exec.Output.Stream.{last}

-- The part of a text of so many bytes, at the side that is kept.
abbrev pub part : Keep → ℕ → Bytes → Bytes
part Keep.start n bytes = take n bytes
part Keep.end n bytes = last n bytes

abbrev pub GrowsThreefold : (Bytes → Bytes) → Type 0
GrowsThreefold decode = (bytes : Bytes) → length (decode bytes) ≤ 3 * length bytes

-- A window that fits, and what it covers.
pub record Fits (decode : Bytes → Bytes) (keep : Keep) (bytes : Bytes) (limit : ℕ) (r : Bytes × ℕ)
    : Type 0 where
  pub within : length (r.0) ≤ limit
  pub inside : r.1 ≤ length bytes
  pub decoded : r.0 ≡ decode (part keep (r.1) bytes)

trimmed-part :
    (keep : Keep) (e : ℕ) (bytes : Bytes)
    → e ≤ length bytes
    → (fewer : Bytes) × (trimmed keep e bytes ≡ some fewer)
      × (length fewer ≡ length bytes - e)
      × ((n : ℕ) → n ≤ length bytes - e → part keep n fewer ≡ part keep n bytes)
unfolding trimmed
trimmed-part Keep.start e bytes h = (
  take (length bytes - e) bytes,
  ground arith,
  omega (arith, length-take (length bytes - e) bytes),
  λ n k. take-take n (length bytes - e) bytes k,
)
trimmed-part Keep.end e bytes h = (
  drop e bytes,
  ground arith,
  length-drop e bytes,
  λ n k. sym (
      drop-drop e (length (drop e bytes) - n) (length bytes - n) bytes
        (omega (arith, length-drop e bytes))),
)

part-all : (keep : Keep) (bytes : Bytes) → part keep (length bytes) bytes ≡ bytes
part-all Keep.start bytes = take-eq_of_le (length bytes) bytes (omega arith)
part-all Keep.end bytes = drop-at (length bytes - length bytes) 0 bytes (omega arith)

-- The loop, given so much fuel, ends with a window that fits.
abbrev pub FitEnds : (Bytes → Bytes) → ℕ → Bytes → ℕ → Keep → Type 0
FitEnds decode fuel bytes limit keep =
    (r : Bytes × ℕ) × (fit decode fuel bytes limit keep ≡ some r) × Fits decode keep bytes limit r

module _ (decode : Bytes → Bytes) (limit : ℕ) (keep : Keep) where
  abbrev excess : Bytes → ℕ
  excess bytes = excess_of (length (decode bytes)) limit

  abbrev TooLong : Bytes → Type 0
  TooLong bytes = leb (length (decode bytes)) limit ≡ false

  -- A window that fits in the text without the excess fits in the text.
  excess-Fits :
      (bytes fewer : Bytes) (r : Bytes × ℕ)
      → length fewer ≡ length bytes - excess bytes
      → ((n : ℕ) → n ≤ length bytes - excess bytes → part keep n fewer ≡ part keep n bytes)
      → Fits decode keep fewer limit r
      → Fits decode keep bytes limit r
  excess-Fits bytes fewer r len same f = record {
    within = f.within;
    inside = omega (arith, len, f.inside);
    decoded = f.decoded ∙ ap decode (same (r.1) (omega (arith, len, f.inside)));
  }

  round-FitEnds :
      (fuel : ℕ) (bytes : Bytes)
      → TooLong bytes
      → excess bytes ≤ length bytes
      → ((fewer : Bytes)
          → length fewer ≡ length bytes - excess bytes
          → FitEnds decode fuel fewer limit keep)
      → FitEnds decode (suc fuel) bytes limit keep
  unfolding fit
  round-FitEnds fuel bytes more enough rest =
      let (fewer, cut, len, same) = trimmed-part keep (excess bytes) bytes enough in
      let (r, e, f) = rest fewer len in
      (r, rw more (rw cut e), excess-Fits bytes fewer r len same f)

  module _ (grows : GrowsThreefold decode) where
    -- With fuel for each byte the loop ends, and never cuts more than there is.
    pub fit-FitEnds :
        (fuel : ℕ) (bytes : Bytes) → length bytes < fuel → FitEnds decode fuel bytes limit keep
    unfolding fit
    fit-FitEnds zero bytes h = absurd (omega arith)
    fit-FitEnds (suc fuel) bytes h = elim (Bool-cases (leb (length (decode bytes)) limit)) [
      | inl fits ↦ (
        (decode bytes, length bytes),
        rw fits,
        record {
          within = ground arith;
          inside = omega arith;
          decoded = ap decode (sym (part-all keep bytes));
        },
      )
      | inr more ↦
          round-FitEnds fuel bytes more (ground (arith, grows bytes))
            (λ fewer len. fit-FitEnds fuel fewer (ground (arith, len, grows bytes)))
    ]
