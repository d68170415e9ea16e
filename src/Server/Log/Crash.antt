-- ===== src/Server/Log/Crash.antt =====
-- A log that was written line by line (store.rs), and what is left of it when its last line is cut
-- short.
use mathlib.Core.List.{append_assoc, append-nil, map-append}
use remote_workspace.Prelude.{
  ℕ, ◌+◌, ◌<◌, Bytes, ◌≡◌, ◌≢◌, refl, sym, ap, subst, ◌∙◌, Bool, true, false, List, [], ◌∷◌, ◌++◌,
  map, inl, inr, arith, length, take, drop, leb, if◌then◌else◌, Bool-cases, take-append-drop,
  take-append_of_lt, take-append_self, take-eq_of_le, drop-ne-nil, length-append, lt_trichotomy,
  lt→leb, leb-eq, le→leb, le_of_lt, zero, suc,
}
use remote_workspace.Prelude.Utf8.{is_utf8}
use remote_workspace.Prelude.Utf8.Trim.{trim-object, trim-brace}
use remote_workspace.Protocol.Error.{ok}
use remote_workspace.Server.Log.{
  Codec, LineEntry, line_entry, read_lines, parse_log_line_strict, parse_lines, parse_trimmed,
  parsed, skipped_crash_truncated, load_log, repair, truncate_trailing_garbage, wants_newline,
}
use remote_workspace.Server.Log.Lines.{
  OneLine, AllOneLine, encode, entries_of, tail_entries, read_lines-encode,
  valid_content_end_offset-entries_of, append_missing_newline-entries_of,
  append_missing_newline-whole, encode-append,
}
use remote_workspace.Server.Log.Json.{IsJson, object}

append-ne-nil : (xs ys : Bytes) → ys ≢ [] → xs ++ ys ≢ []
append-ne-nil [] ys h e = h e
append-ne-nil (x ∷ xs) ys h e = cc

OneLine-front : (xs ys : Bytes) → OneLine (xs ++ ys) → OneLine xs
OneLine-front [] ys h = tt
OneLine-front (x ∷ xs) ys h = (h.0, OneLine-front xs ys h.1)

module _ {A : Type 0} (json : Codec A) (laws : IsJson json) where
  abbrev pub text : A → Bytes
  text v = object (laws.body v)

  -- The file of a log that holds these values.
  abbrev pub log_of : List A → Bytes
  log_of vs = encode (map text vs)

  parse-whole :
      (v : A) (start : ℕ) (b : Bool)
      → parse_log_line_strict json (line_entry (text v) start b) ≡ ok (parsed v)
  unfolding parse_log_line_strict
  parse-whole v start b =
      rw (laws.utf8 v)
        (rw (trim-object (laws.body v)) (rw (laws.from_str_object v, parse_trimmed) refl))

  parse-cut :
      (v : A) (start : ℕ) (q u : Bytes)
      → text v ≡ (b'{' ∷ q) ++ u
      → u ≢ []
      → parse_log_line_strict json (line_entry (b'{' ∷ q) start false) ≡ ok skipped_crash_truncated
  unfolding parse_log_line_strict
  parse-cut v start q u h ne = elim (Bool-cases (is_utf8 (b'{' ∷ q))) [
    | inr bad ↦ rw bad refl
    | inl good ↦
        let (q', u', trimmed, rest) = trim-brace q in
        let (e, failed) =
          laws.from_str_cut v (b'{' ∷ q') (u' ++ u)
            (h ∙ ap (λ t. t ++ u) rest ∙ append_assoc (b'{' ∷ q') u' u) (append-ne-nil u' u ne) in
        rw good (rw trimmed (rw (failed, parse_trimmed) refl))
  ]

  add_front : List A → List A × Bool → List A × Bool
  add_front vs r = (vs ++ r.0, r.1)

  parse_lines-entries_of :
      (start : ℕ) (vs : List A) (es : List LineEntry) (ws : List A) (t : Bool)
      → parse_lines json es ≡ ok (ws, t)
      → parse_lines json (entries_of start (map text vs) ++ es) ≡ ok (vs ++ ws, t)
  unfolding parse_lines
  parse_lines-entries_of start [] es ws t h = h
  parse_lines-entries_of start (v ∷ vs) es ws t h =
      rw (parse-whole v start true)
        (rw (parse_lines-entries_of (start + length (text v) + 1) vs es ws t h) refl)

  AllOneLine-text : (vs : List A) → AllOneLine (map text vs)
  AllOneLine-text [] = tt
  AllOneLine-text (v ∷ vs) = (laws.one_line v, AllOneLine-text vs)

  read_lines-log_of :
      (vs : List A) (rest : Bytes)
      → OneLine rest
      → read_lines (log_of vs ++ rest)
        ≡ entries_of 0 (map text vs) ++ tail_entries (0 + length (log_of vs)) rest
  unfolding read_lines
  read_lines-log_of vs rest h = read_lines-encode 0 (map text vs) rest (AllOneLine-text vs) h

  -- `load_log` once the lines, their values and the repair are known.
  load_log-of :
      (file fixed : Bytes) (es : List LineEntry) (vs : List A) (t : Bool)
      → read_lines file ≡ es
      → parse_lines json es ≡ ok (vs, t)
      → repair json t es file ≡ fixed
      → load_log json file ≡ ok (vs, fixed)
  unfolding load_log
  load_log-of file fixed es vs t read parse fix = rw read (rw parse (rw fix refl))

  -- A log of whole lines reads back as its values, and the file is left as it is.
  pub load_log-log_of : (vs : List A) → load_log json (log_of vs) ≡ ok (vs, log_of vs)
  load_log-log_of vs =
      load_log-of (log_of vs) (log_of vs) (entries_of 0 (map text vs)) vs false
        (ap read_lines (sym (append-nil (log_of vs)))
          ∙ read_lines-log_of vs [] tt
          ∙ append-nil (entries_of 0 (map text vs)))
        (ap (parse_lines json) (sym (append-nil (entries_of 0 (map text vs))))
          ∙ parse_lines-entries_of 0 vs [] [] false (unfold parse_lines in refl)
          ∙ ap (λ ws. ok (ws, false)) (append-nil vs))
        (append_missing_newline-whole 0 (map text vs) (log_of vs))

  parse_lines-cut :
      (v : A) (start : ℕ) (q u : Bytes)
      → text v ≡ (b'{' ∷ q) ++ u
      → u ≢ []
      → parse_lines json (tail_entries start (b'{' ∷ q)) ≡ ok ([], true)
  unfolding parse_lines
  parse_lines-cut v start q u h ne = rw (parse-cut v start q u h ne) refl

  parse_lines-single :
      (v : A) (start : ℕ) → parse_lines json (tail_entries start (text v)) ≡ ok (v ∷ [], false)
  unfolding parse_lines
  parse_lines-single v start = rw (parse-whole v start false) refl

  -- The truncation takes off exactly what follows the whole lines.
  truncate-log_of :
      (vs : List A) (rest : Bytes)
      → truncate_trailing_garbage
          (entries_of 0 (map text vs) ++ tail_entries (0 + length (log_of vs)) rest)
          (log_of vs ++ rest)
        ≡ log_of vs
  unfolding truncate_trailing_garbage
  truncate-log_of vs rest =
      ap (λ n. take n (log_of vs ++ rest))
        (omega (
          arith,
          valid_content_end_offset-entries_of 0 (map text vs) rest (0 + length (log_of vs)),
        ))
      ∙ take-append_self (log_of vs) rest

  pub log_of-append :
      (vs : List A) (v : A) → log_of (vs ++ v ∷ []) ≡ log_of vs ++ (text v ++ b'\n' ∷ [])
  log_of-append vs v =
      ap encode (map-append text vs (v ∷ [])) ∙ encode-append (map text vs) (text v ∷ [])

  newline-log_of :
      (vs : List A) (v : A) (start : ℕ)
      → (if wants_newline (line_entry (text v) start false)
          then (log_of vs ++ text v) ++ b'\n' ∷ []
          else log_of vs ++ text v)
        ≡ log_of (vs ++ v ∷ [])
  newline-log_of vs v start = rw (laws.utf8 v) (
      rw (trim-object (laws.body v))
        (append_assoc (log_of vs) (text v) (b'\n' ∷ []) ∙ sym (log_of-append vs v)))

  load_log-cut :
      (vs : List A) (v : A) (q u : Bytes)
      → text v ≡ (b'{' ∷ q) ++ u
      → u ≢ []
      → load_log json (log_of vs ++ b'{' ∷ q) ≡ ok (vs, log_of vs)
  load_log-cut vs v q u h ne =
      load_log-of (log_of vs ++ b'{' ∷ q) (log_of vs)
        (entries_of 0 (map text vs) ++ tail_entries (0 + length (log_of vs)) (b'{' ∷ q)) vs true
        (read_lines-log_of vs (b'{' ∷ q)
          (OneLine-front (b'{' ∷ q) u (subst OneLine h (laws.one_line v))))
        (parse_lines-entries_of 0 vs _ [] true (parse_lines-cut v _ q u h ne)
          ∙ ap (λ ws. ok (ws, true)) (append-nil vs))
        (truncate-log_of vs (b'{' ∷ q))

  load_log-unterminated :
      (vs : List A) (v : A)
      → load_log json (log_of vs ++ text v) ≡ ok (vs ++ v ∷ [], log_of (vs ++ v ∷ []))
  load_log-unterminated vs v =
      load_log-of (log_of vs ++ text v) (log_of (vs ++ v ∷ []))
        (entries_of 0 (map text vs) ++ tail_entries (0 + length (log_of vs)) (text v))
        (vs ++ v ∷ []) false (read_lines-log_of vs (text v) (laws.one_line v))
        (parse_lines-entries_of 0 vs _ (v ∷ []) false
          (parse_lines-single v (0 + length (log_of vs))))
        (append_missing_newline-entries_of 0 (map text vs) _ (log_of vs ++ text v)
          ∙ newline-log_of vs v (0 + length (log_of vs)))

  load_log-short :
      (vs : List A) (v : A) (k : ℕ)
      → k < length (text v)
      → load_log json (log_of vs ++ take k (text v ++ b'\n' ∷ [])) ≡ ok (vs, log_of vs)
  load_log-short vs v zero h = ap (load_log json) (append-nil (log_of vs)) ∙ load_log-log_of vs
  load_log-short vs v (suc k) h =
      ap (λ t. load_log json (log_of vs ++ t)) (take-append_of_lt (suc k) (text v) (b'\n' ∷ []) h)
      ∙ load_log-cut vs v _ (drop (suc k) (text v)) (sym (take-append-drop (suc k) (text v)))
          (drop-ne-nil (suc k) (text v) h)

  load_log-long :
      (vs : List A) (v : A) (k : ℕ)
      → length (text v) < k
      → load_log json (log_of vs ++ take k (text v ++ b'\n' ∷ []))
        ≡ ok (vs ++ v ∷ [], log_of (vs ++ v ∷ []))
  load_log-long vs v k h =
      ap (λ t. load_log json (log_of vs ++ t))
        (take-eq_of_le k (text v ++ b'\n' ∷ [])
          (omega (arith, length-append (text v) (b'\n' ∷ []))))
      ∙ ap (load_log json) (sym (log_of-append vs v))
      ∙ load_log-log_of (vs ++ v ∷ [])

  -- After a crash in the middle of an append, at any byte, the log loads as its earlier values,
  -- with the new one exactly if all of its text is there, and is repaired to the file of what was
  -- read.
  pub load_log-crash :
      (vs : List A) (v : A) (k : ℕ)
      → load_log json (log_of vs ++ take k (text v ++ b'\n' ∷ [])) ≡ (
          if leb (length (text v)) k
          then ok (vs ++ v ∷ [], log_of (vs ++ v ∷ []))
          else ok (vs, log_of vs))
  load_log-crash vs v k = elim (lt_trichotomy k (length (text v))) [
    | inl short ↦ rw (lt→leb _ _ short) (load_log-short vs v k short)
    | inr (inl exact) ↦ rw (leb-eq (length (text v)) k exact) (
        ap (λ n. load_log json (log_of vs ++ take n (text v ++ b'\n' ∷ []))) exact
        ∙ ap (λ t. load_log json (log_of vs ++ t)) (take-append_self (text v) (b'\n' ∷ []))
        ∙ load_log-unterminated vs v)
    | inr (inr long) ↦ rw (le→leb _ _ (le_of_lt long)) (load_log-long vs v k long)
  ]
