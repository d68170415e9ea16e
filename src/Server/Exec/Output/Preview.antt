-- ===== src/Server/Exec/Output/Preview.antt =====
-- exec.rs: from the chunks that a command writes to the texts that are reported.
use remote_workspace.Prelude.{
  subst, ℕ, ◌+◌, ◌-◌, ◌≤◌, ◌<◌, ◌≡◌, ap, sym, ◌∙◌, Bytes, some, List, [], length, take, drop, arith,
  length-take, length-drop, take-take, drop-drop, drop-eq-nil, suc, inl, inr, Bool-cases, leb,
}
use remote_workspace.Prelude.Decimal.{u64_mod}
use remote_workspace.Protocol.Messages.{ExecOutput}
use remote_workspace.Server.Exec.Output.{
  OutputCapture, StreamEvent, Keep, fit_all, finish, joined, output_of, empty, capture_all,
  output_prefix_limit, output_suffix_limit,
}
use remote_workspace.Server.Exec.Output.Stream.{last, kept, stdout_of, stderr_of, capture_all-kept}
use remote_workspace.Server.Exec.Output.Window.{Fits, GrowsThreefold, fit-FitEnds}

-- A report of a stream: texts within their limits that decode a beginning and an end of it, which do
-- not overlap, its length, and how much of it stands in neither.
pub record Previews (decode : Bytes → Bytes) (bytes : Bytes) (o : ExecOutput) (p s : ℕ)
    : Type 0 where
  pub prefix_within : length o.prefix ≤ output_prefix_limit
  pub suffix_within : length o.suffix ≤ output_suffix_limit
  pub prefix_is : o.prefix ≡ decode (take p bytes)
  pub suffix_is : o.suffix ≡ decode (last s bytes)
  pub total_is : o.total_bytes ≡ length bytes
  pub omitted_is : p + o.omitted_bytes + s ≡ length bytes

abbrev pub PreviewOf : (Bytes → Bytes) → Bytes → OutputCapture → Type 0
PreviewOf decode bytes c =
    (o : ExecOutput) × (p : ℕ) × (s : ℕ) × (finish decode c ≡ some o) × Previews decode bytes o p s

-- The end of the end of a text.
last-drop :
    (n k p : ℕ) (bytes : Bytes)
    → k ≤ length (last n (drop p bytes))
    → last k (last n (drop p bytes)) ≡ last k bytes
last-drop n k p bytes h = elim (Bool-cases (leb p (length bytes))) [
  | inl inside ↦
      ap (drop (length (last n (drop p bytes)) - k)) (
        sym (
          drop-drop p (length (drop p bytes) - n) (p + (length (drop p bytes) - n)) bytes
            (omega arith)))
      ∙ sym (
          drop-drop (p + (length (drop p bytes) - n)) (length (last n (drop p bytes)) - k)
            (length bytes - k) bytes
            (ground (
              arith,
              h,
              length-drop p bytes,
              length-drop (length (drop p bytes) - n) (drop p bytes),
            )))
  | inr outside ↦
      drop-eq-nil (length (last n (drop p bytes)) - k) (last n (drop p bytes))
        (ground (arith, nothing, length-drop p bytes))
      ∙ sym (drop-eq-nil (length bytes - k) bytes (ground (arith, h, nothing, length-drop p bytes)))
]
  where
    nothing : length (last n (drop p bytes)) ≡ length (drop p bytes) - (length (drop p bytes) - n)
    nothing = length-drop (length (drop p bytes) - n) (drop p bytes)

finish-fit :
    (decode : Bytes → Bytes) (c : OutputCapture) (p s : Bytes × ℕ)
    → fit_all decode c.prefix output_prefix_limit Keep.start ≡ some p
    → fit_all decode c.suffix output_suffix_limit Keep.end ≡ some s
    → finish decode c ≡ some (output_of decode c p s)
unfolding finish
finish-fit decode c p s e d = λ i. joined decode c (e i) (d i)

module _ (decode : Bytes → Bytes) where
  fitted-Previews :
      (bytes : Bytes) (p s : Bytes × ℕ)
      → length bytes < u64_mod
      → Fits decode Keep.start (take output_prefix_limit bytes) output_prefix_limit p
      → Fits decode Keep.end
          (last output_suffix_limit (drop output_prefix_limit bytes))
          output_suffix_limit
          s
      → Previews decode bytes (output_of decode (kept bytes) p s) (p.1) (s.1)
  fitted-Previews bytes (prefix, n) (suffix, m) h f g = record {
    prefix_within = f.within;
    suffix_within = g.within;
    prefix_is =
        f.decoded
        ∙ ap decode (
            take-take n output_prefix_limit bytes
              (omega (arith, f.inside, length-take output_prefix_limit bytes)));
    suffix_is =
        g.decoded ∙ ap decode (last-drop output_suffix_limit m output_prefix_limit bytes g.inside);
    total_is = omega arith;
    omitted_is = omega (
      arith,
      h,
      f.inside,
      g.inside,
      length-take output_prefix_limit bytes,
      length-drop output_prefix_limit bytes,
      length-drop (length (drop output_prefix_limit bytes) - output_suffix_limit)
          (drop output_prefix_limit bytes),
    );
  }

  finish-PreviewOf :
      GrowsThreefold decode
      → (bytes : Bytes) → length bytes < u64_mod
      → PreviewOf decode bytes (kept bytes)
  finish-PreviewOf grows bytes h =
      let c = kept bytes in
      let (p, e, f) =
        fit-FitEnds decode output_prefix_limit Keep.start grows (suc (length c.prefix)) c.prefix
          (omega arith) in
      let (s, d, g) =
        fit-FitEnds decode output_suffix_limit Keep.end grows (suc (length c.suffix)) c.suffix
          (omega arith) in
      (
        output_of decode c p s,
        p.1,
        s.1,
        finish-fit decode c p s e d,
        fitted-Previews bytes p s h f g,
      )

  -- What is reported of the two streams of a command, whatever chunks they come in and however these
  -- are interleaved, if each is shorter than a u64 can count and decoding makes at most three bytes
  -- of one: the two texts of a stream are within their limits, decode a beginning and an end of it
  -- that do not overlap, and the count of omitted bytes is that of the bytes between them.
  pub capture_all-PreviewOf :
      GrowsThreefold decode
      → (events : List StreamEvent) → length (stdout_of events) < u64_mod
      → length (stderr_of events) < u64_mod
      → PreviewOf decode (stdout_of events) (capture_all events (empty, empty)).0
        × PreviewOf decode (stderr_of events) (capture_all events (empty, empty)).1
  capture_all-PreviewOf grows events h k = (
    subst (λ c. PreviewOf decode (stdout_of events) (c.0)) (sym (capture_all-kept events [] []))
        (finish-PreviewOf grows (stdout_of events) h),
    subst (λ c. PreviewOf decode (stderr_of events) (c.1)) (sym (capture_all-kept events [] []))
        (finish-PreviewOf grows (stderr_of events) k),
  )

  -- A report is made of any capture.
  pub finish-some :
      GrowsThreefold decode → (c : OutputCapture) → (o : ExecOutput) × (finish decode c ≡ some o)
  finish-some grows c =
      let (p, e, f) =
        fit-FitEnds decode output_prefix_limit Keep.start grows (suc (length c.prefix)) c.prefix
          (omega arith) in
      let (s, d, g) =
        fit-FitEnds decode output_suffix_limit Keep.end grows (suc (length c.suffix)) c.suffix
          (omega arith) in
      (output_of decode c p s, finish-fit decode c p s e d)
