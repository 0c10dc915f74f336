-- ===== src/Importcfg/Merged.antt =====
-- The lines of a merged file.
use go2nix.Base.{
  List, [], ◌∷◌, ◌++◌, ◌≡◌, refl, sym, ap, ◌∙◌, subst, inl, inr, append-nil, append_assoc, Bool,
  true, false, Bool-cases, Text, ok, ok_of_bind, ok_cancel, All, All-append, if◌then◌else◌, arith,
}
use go2nix.Importcfg.{
  Part, content, missing, broken, not_closed, raw_lines, scan_lines, is_directive, write_kept,
  merge_parts, flush, merge_importcfg,
}
use go2nix.Importcfg.Lines.{
  Without, Clean, write_lines, raw_lines-Clean, scan_lines-Clean, raw_lines-write_lines,
}

abbrev pub kept : List Text → List Text
kept [] = []
kept (line ∷ rest) = if is_directive line then line ∷ kept rest else kept rest

abbrev pub lines_of : List Part → List Text
lines_of [] = []
lines_of (content text ∷ parts) = scan_lines (raw_lines text) ++ lines_of parts
lines_of (missing ∷ parts) = lines_of parts
lines_of (broken ∷ parts) = lines_of parts
lines_of (not_closed ∷ parts) = lines_of parts

-- A part whose content has no carriage return.
abbrev pub Plain : Part → Type 0
Plain (content text) = Without 13 text
Plain missing = Unit {0}
Plain broken = Unit {0}
Plain not_closed = Unit {0}

kept-append : (a b : List Text) → kept (a ++ b) ≡ kept a ++ kept b
kept-append [] b = refl
kept-append (line ∷ a) b = ground (arith, kept-append a b)

kept-kept : (a : List Text) → kept (kept a) ≡ kept a
kept-kept [] = refl
kept-kept (line ∷ a) = elim (Bool-cases (is_directive line)) [
  | inl e ↦ rw e (rw e (ap (λ x. line ∷ x) (kept-kept a)))
  | inr e ↦ rw e (kept-kept a)
]

kept-Clean : (a : List Text) → All Clean a → All Clean (kept a)
kept-Clean [] h = tt
kept-Clean (line ∷ a) (l, h) = elim (Bool-cases (is_directive line)) [
  | inl e ↦ rw e (l, kept-Clean a h)
  | inr e ↦ rw e (kept-Clean a h)
]

write_lines-append : (a b : List Text) → write_lines (a ++ b) ≡ write_lines a ++ write_lines b
write_lines-append [] b = refl
write_lines-append (line ∷ a) b =
    ap (λ x. line ++ (10 ∷ x)) (write_lines-append a b)
    ∙ sym (append_assoc line (10 ∷ write_lines a) (write_lines b))

write_kept_lem :
    (written : Text) (lines : List Text)
    → write_kept written lines ≡ written ++ write_lines (kept lines)
unfolding write_kept
write_kept_lem written [] = sym (append-nil written)
write_kept_lem written (line ∷ rest) = elim (Bool-cases (is_directive line)) [
  | inl e ↦ rw e (
      write_kept_lem (written ++ (line ++ (10 ∷ []))) rest
      ∙ append_assoc written (line ++ (10 ∷ [])) (write_lines (kept rest))
      ∙ ap (λ x. written ++ x) (append_assoc line (10 ∷ []) (write_lines (kept rest))))
  | inr e ↦ rw e (write_kept_lem written rest)
]

merge_parts_lem :
    (written : Text) (parts : List Part) (out : Text)
    → merge_parts written parts ≡ ok out
    → out ≡ written ++ write_lines (kept (lines_of parts))
unfolding merge_parts
merge_parts_lem written [] out h = sym (ok_cancel h) ∙ sym (append-nil written)
merge_parts_lem written (content text ∷ parts) out h =
    let first = scan_lines (raw_lines text) in
    let ih = merge_parts_lem (write_kept written first) parts out h in
    ih
    ∙ ap (λ x. x ++ write_lines (kept (lines_of parts))) (write_kept_lem written first)
    ∙ append_assoc written (write_lines (kept first)) (write_lines (kept (lines_of parts)))
    ∙ ap (λ x. written ++ x)
        (sym (write_lines-append (kept first) (kept (lines_of parts)))
          ∙ ap write_lines (sym (kept-append first (lines_of parts))))
merge_parts_lem written (missing ∷ parts) out h = cc
merge_parts_lem written (broken ∷ parts) out h = cc
merge_parts_lem written (not_closed ∷ parts) out h = cc

lines_of-Clean : (parts : List Part) → All Plain parts → All Clean (lines_of parts)
lines_of-Clean [] h = tt
lines_of-Clean (content text ∷ parts) (p, h) =
    All-append Clean (scan_lines (raw_lines text)) (lines_of parts)
      (subst (All Clean) (sym (scan_lines-Clean _ (raw_lines-Clean text p)))
        (raw_lines-Clean text p))
      (lines_of-Clean parts h)
lines_of-Clean (missing ∷ parts) (_, h) = lines_of-Clean parts h
lines_of-Clean (broken ∷ parts) (_, h) = lines_of-Clean parts h
lines_of-Clean (not_closed ∷ parts) (_, h) = lines_of-Clean parts h

abbrev pub HasContent : Part → Type 0
HasContent p = (text : Text) × (p ≡ content text)

merge_parts-HasContent :
    (written : Text) (parts : List Part) (out : Text)
    → merge_parts written parts ≡ ok out
    → All HasContent parts
unfolding merge_parts
merge_parts-HasContent written [] out h = tt
merge_parts-HasContent written (content text ∷ parts) out h = (
  (text, refl),
  merge_parts-HasContent (write_kept written (scan_lines (raw_lines text))) parts out h,
)
merge_parts-HasContent written (missing ∷ parts) out h = cc
merge_parts-HasContent written (broken ∷ parts) out h = cc
merge_parts-HasContent written (not_closed ∷ parts) out h = cc

merge_importcfg-came :
    (created flushed : Bool) (parts : List Part) (out : Text)
    → merge_importcfg created flushed parts ≡ ok out
    → (created ≡ true) × (flushed ≡ true) × (merge_parts [] parts ≡ ok out)
unfolding merge_importcfg
merge_importcfg-came true true parts out h =
    let record { value = w; came = a; went = b } =
      ok_of_bind (flush true) (merge_parts [] parts) h in
    (refl, refl, a ∙ b)
merge_importcfg-came true false parts out h =
    let record { value = w; came = a; went = b } =
      ok_of_bind (flush false) (merge_parts [] parts) h in
    cc
merge_importcfg-came false flushed parts out h = cc

-- Where no part has a carriage return and the merging succeeds, every part was read to its end, the
-- lines of the merged file are the packagefile and importmap lines of the parts, in order, and
-- merging the merged file again gives the same file.
pub merge_importcfg-lines :
    (created flushed : Bool) (parts : List Part) (out : Text)
    → All Plain parts
    → merge_importcfg created flushed parts ≡ ok out
    → All HasContent parts
      × (scan_lines (raw_lines out) ≡ kept (lines_of parts))
      × (merge_importcfg created flushed (content out ∷ []) ≡ ok out)
unfolding merge_importcfg merge_parts
merge_importcfg-lines created flushed parts out plain h =
    let (c, f, m) = merge_importcfg-came created flushed parts out h in
    let lines = kept (lines_of parts) in
    let clean : All Clean lines = kept-Clean (lines_of parts) (lines_of-Clean parts plain) in
    let written : out ≡ write_lines lines = merge_parts_lem [] parts out m in
    let read : scan_lines (raw_lines out) ≡ lines =
      ap (λ x. scan_lines (raw_lines x)) written
      ∙ ap scan_lines (raw_lines-write_lines lines clean)
      ∙ scan_lines-Clean lines clean in
    let again : write_kept [] (scan_lines (raw_lines out)) ≡ out =
      ap (write_kept []) read
      ∙ write_kept_lem [] lines
      ∙ ap write_lines (kept-kept (lines_of parts))
      ∙ sym written in
    (merge_parts-HasContent [] parts out m, read, rw (c, f) (ap ok again))
