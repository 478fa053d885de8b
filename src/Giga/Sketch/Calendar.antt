-- ===== src/Giga/Sketch/Calendar.antt =====
-- The calendar's text in housepanel-giga.ino, over the events of a list.
use mathlib.Core.List.{append_assoc, append-nil}
use mathlib.Core.Path.{subst}
use house_panel.Base.{
  ◌-◌, ◌≤◌, ◌≡◌, ◌≢◌, refl, sym, ap, ◌∙◌, ◌⊎◌, inl, inr, Bool, List, [], ◌∷◌, ◌++◌, arith, ltb,
  Bytes, length, take, length-append, take_more, take-within, ltb→lt, ltb→ge, if_cases, length-take,
}
use house_panel.Base.Int.{ℤ, pos}
use house_panel.Giga.Sketch.{
  Sketch, calendar_line, append_line, start_list, add_event, cal_text_size,
}

pub record Event : Type 0 where
  pub idx : ℤ
  pub summary : Bytes
  pub time : Bytes
  pub all_day : Bool

abbrev pub line_of : Event → Bytes
line_of e = calendar_line e.summary e.time e.all_day

abbrev pub lines_of : List Event → Bytes
lines_of [] = []
lines_of (e ∷ es) = line_of e ++ lines_of es

-- The events after the first of a list.
abbrev pub AllLater : List Event → Type 0
AllLater [] = Unit {0}
AllLater (e ∷ es) = (e.idx ≢ pos 0) × AllLater es

module _ {F : Type 0} where
  unfoldable pub add_events : Sketch F → List Event → Sketch F
  add_events s [] = s
  add_events s (e ∷ es) = add_events (add_event s e.idx e.summary e.time e.all_day) es

  -- The buffer has what fits of `all`, and the length says when it is full.
  record IsText (all : Bytes) (s : Sketch F) : Type 0 where
    text_is : s.cal_text ≡ take (cal_text_size - 1) all
    counted :
        (s.cal_text_len ≡ length all)
        ⊎ ((cal_text_size - 1 ≤ s.cal_text_len) × (cal_text_size - 1 ≤ length all))

  append_line-IsText :
      (all line : Bytes) (s : Sketch F) → IsText all s → IsText (all ++ line) (append_line s line)
  unfolding append_line
  append_line-IsText all line s h =
      let full : cal_text_size - 1 ≤ s.cal_text_len → cal_text_size - 1 ≤ length all =
        λ n. elim h.counted [ inl e ↦ omega (arith, e, n) | inr p ↦ p.1 ] in
      let less = ltb→lt s.cal_text_len (cal_text_size - 1) in
      if_cases (IsText (all ++ line)) (ltb s.cal_text_len (cal_text_size - 1)) _ _
        (λ e.
          let room : s.cal_text_len ≡ length all = elim h.counted [
            | inl u ↦ u
            | inr p ↦ absurd (omega (arith, p, less e))
          ] in
          record {
            text_is =
                ap (λ t. t ++ take (cal_text_size - 1 - s.cal_text_len) line) h.text_is
                ∙ ap (λ m. take (cal_text_size - 1) all ++ take m line)
                    (omega (arith, less e, room, length-take (cal_text_size - 1) all))
                ∙ take_more (cal_text_size - 1) all line;
            counted = inl (omega (arith, room, length-append all line));
          })
        (λ e.
          let over : cal_text_size - 1 ≤ s.cal_text_len =
            ltb→ge s.cal_text_len (cal_text_size - 1) e in
          record {
            text_is = h.text_is ∙ sym (take-within (cal_text_size - 1) all line (full over));
            counted = inr (over, omega (arith, full over, length-append all line));
          })

  later-IsText :
      (all : Bytes) (e : Event) (s : Sketch F)
      → e.idx ≢ pos 0
      → IsText all s
      → IsText (all ++ line_of e) (add_event s e.idx e.summary e.time e.all_day)
  unfolding add_event start_list
  later-IsText all e s later h = ground (arith, append_line-IsText all (line_of e) s h)

  add_events-IsText :
      (es : List Event) (all : Bytes) (s : Sketch F)
      → AllLater es
      → IsText all s
      → IsText (all ++ lines_of es) (add_events s es)
  unfolding add_events
  add_events-IsText [] all s later h = subst (λ t. IsText t s) (sym (append-nil all)) h
  add_events-IsText (e ∷ es) all s later h =
      subst (λ t. IsText t (add_events s (e ∷ es))) (append_assoc all (line_of e) (lines_of es))
        (add_events-IsText es (all ++ line_of e) (add_event s e.idx e.summary e.time e.all_day)
          later.1 (later-IsText all e s later.0 h))

  first-IsText :
      (e : Event) (s : Sketch F)
      → e.idx ≡ pos 0
      → IsText (line_of e) (add_event s e.idx e.summary e.time e.all_day)
  unfolding add_event start_list
  first-IsText e s start =
      subst (λ i. IsText (line_of e) (append_line (start_list s i) (line_of e))) (sym start)
        (append_line-IsText [] (line_of e) (record s { cal_text_len = 0; cal_text = [] })
          (record { text_is = refl; counted = inl refl }))

  -- After the events of a list, from the one with index 0 on, the calendar's buffer holds the first 511
  -- bytes of their lines, one after another, whatever it held before.
  pub calendar_text_is :
      (s : Sketch F) (first : Event) (es : List Event)
      → first.idx ≡ pos 0
      → AllLater es
      → (add_events s (first ∷ es)).cal_text ≡ take (cal_text_size - 1) (lines_of (first ∷ es))
  unfolding add_events
  calendar_text_is s first es start later =
      (add_events-IsText es (line_of first)
        (add_event s first.idx first.summary first.time first.all_day) later
        (first-IsText first s start)).text_is
