-- ===== src/Policy/Judge.antt =====
-- `judge` of src/policy.rs is the strictest verdict over a subject's texts, and overlays only
-- tighten.
use stavlos.Common.{
  ◌≤◌, ◌≡◌, ◌⊎◌, refl, ap, true, some, List, [], ◌∷◌, ◌++◌, Text, contains, text_eq_refl,
  text_eq_iff, arith, inl, inr,
}
use stavlos.Policy.{
  Verb, rank, max_verb, Kind, Subject, texts, or_empty_text, Regex, Set, lookup, or_ask, Layered,
  with_overlay, tighten, overlaid, judge_from, judge_texts, judge, decide_layered,
}

judge_from_above :
    (one : Text → Verb) (v : Verb) (about : Text) (ts : List Text)
    → rank v ≤ rank (judge_from one v about ts).0
unfolding judge_from
judge_from_above one v about [] = omega arith
judge_from_above one v about (t ∷ ts) =
    ground (arith, judge_from_above one (one t) t ts, judge_from_above one v about ts)

judge_from_bounds :
    (one : Text → Verb) (v : Verb) (about : Text) (ts : List Text) (t : Text)
    → contains ts t ≡ true
    → rank (one t) ≤ rank (judge_from one v about ts).0
unfolding judge_from
judge_from_bounds one v about [] t h = absurd (cc)
judge_from_bounds one v about (x ∷ ts) t h = ground (
  arith,
  text_eq_iff x t,
  judge_from_bounds one (one x) x ts t,
  judge_from_bounds one v about ts t,
  judge_from_above one (one x) x ts,
  judge_from_above one v about ts,
)

-- The verdict is that of the text that it is about.
judge_from_about :
    (one : Text → Verb) (v : Verb) (about : Text) (ts : List Text)
    → one about ≡ v
    → one (judge_from one v about ts).1 ≡ (judge_from one v about ts).0
unfolding judge_from
judge_from_about one v about [] h = h
judge_from_about one v about (t ∷ ts) h =
    ground (arith, judge_from_about one (one t) t ts refl, judge_from_about one v about ts h)

judge_verb : (s : Subject) (one : Text → Verb) → (judge s one).0 ≡ (judge_texts one (texts s)).0
unfolding judge
judge_verb s one = ground arith

contains_self : (t : Text) (ts : List Text) → contains (t ∷ ts) t ≡ true
contains_self t ts = ground (arith, text_eq_refl t)

-- The text that `judge_from` names is among those that it read.
judge_from_member :
    (one : Text → Verb) (v : Verb) (about : Text) (ts : List Text)
    → contains (about ∷ ts) (judge_from one v about ts).1 ≡ true
unfolding judge_from
judge_from_member one v about [] = contains_self about []
judge_from_member one v about (t ∷ ts) =
    ground (arith, judge_from_member one (one t) t ts, judge_from_member one v about ts)

-- The strictest verdict over some texts, and a text that has it.
judge_texts_max :
    (one : Text → Verb) (t : Text) (ts : List Text) (u : Text)
    → contains (t ∷ ts) u ≡ true
    → rank (one u) ≤ rank (judge_texts one (t ∷ ts)).0
unfolding judge_texts
judge_texts_max one t ts u h = ground (
  arith,
  text_eq_iff t u,
  judge_from_above one (one t) t ts,
  judge_from_bounds one (one t) t ts u,
)

record Strictest (one : Text → Verb) (ts : List Text) (v : Verb) : Type 0 where
  bounds : (u : Text) → contains ts u ≡ true → rank (one u) ≤ rank v
  text : Text
  member : contains ts text ≡ true
  attained : one text ≡ v

judge_texts-Strictest :
    (one : Text → Verb) (t : Text) (ts : List Text)
    → Strictest one (t ∷ ts) (judge_texts one (t ∷ ts)).0
unfolding judge_texts
judge_texts-Strictest one t ts = record {
  bounds = λ u h. judge_texts_max one t ts u h;
  text = (judge_from one (one t) t ts).1;
  member = judge_from_member one (one t) t ts;
  attained = judge_from_about one (one t) t ts refl;
}

or_empty_text_cases : (ts : List Text) → (t : Text) × (us : List Text) × (or_empty_text ts ≡ t ∷ us)
unfolding or_empty_text
or_empty_text_cases [] = ([], [], refl)
or_empty_text_cases (t ∷ ts) = (t, ts, refl)

texts_cases : (s : Subject) → (t : Text) × (us : List Text) × (texts s ≡ t ∷ us)
unfolding texts
texts_cases s = or_empty_text_cases _

judge-Strictest : (s : Subject) (one : Text → Verb) → Strictest one (texts s) (judge s one).0
judge-Strictest s one =
    let (t, us, e) = texts_cases s in rw (judge_verb s one) (rw e (judge_texts-Strictest one t us))

-- A rule set that is stricter on each text is stricter on a subject.
judge_mono :
    (s : Subject) (one two : Text → Verb)
    → ((t : Text) → rank (one t) ≤ rank (two t))
    → rank (judge s one).0 ≤ rank (judge s two).0
judge_mono s one two h =
    let weak = judge-Strictest s one in
    let strong = judge-Strictest s two in
    omega (arith, ap rank weak.attained, h weak.text, strong.bounds weak.text weak.member)

module _ (r : Regex) where
  overlaid_above :
      (ss : List Set) (tool : Text) (k : Kind) (t : Text) (v : Verb)
      → rank v ≤ rank (overlaid r ss tool k t v)
  unfolding overlaid max_verb
  overlaid_above [] tool k t v = omega arith
  overlaid_above (s ∷ ss) tool k t v =
      ground (arith, overlaid_above ss tool k t (tighten v (lookup r s tool k t)))

  overlaid-append :
      (ss us : List Set) (tool : Text) (k : Kind) (t : Text) (v : Verb)
      → overlaid r (ss ++ us) tool k t v ≡ overlaid r us tool k t (overlaid r ss tool k t v)
  unfolding overlaid
  overlaid-append [] us tool k t v = refl
  overlaid-append (s ∷ ss) us tool k t v =
      overlaid-append ss us tool k t (tighten v (lookup r s tool k t))

  -- One more overlay never makes a verdict milder, whatever the tool and the subject.
  pub with_overlay_tightens :
      (l : Layered) (overlay : Set) (tool : Text) (s : Subject)
      → rank (decide_layered r l tool s).0
        ≤ rank (decide_layered r (with_overlay l overlay) tool s).0
  unfolding decide_layered with_overlay
  with_overlay_tightens l [] tool s = omega arith
  with_overlay_tightens l (c ∷ o) tool s = judge_mono s _ _ (λ t.
      rw (overlaid-append l.overlays ((c ∷ o) ∷ []) tool s.kind t _)
        (overlaid_above ((c ∷ o) ∷ []) tool s.kind t _))

  -- What a list of layers says of a text is no milder than what any of them says.
  overlaid_member :
      (before after : List Set) (o : Set) (tool : Text) (k : Kind) (t : Text) (v w : Verb)
      → lookup r o tool k t ≡ some w
      → rank w ≤ rank (overlaid r (before ++ (o ∷ after)) tool k t v)
  unfolding overlaid max_verb
  overlaid_member [] after o tool k t v w e =
      ground (arith, overlaid_above after tool k t (tighten v (some w)))
  overlaid_member (b ∷ before) after o tool k t v w e =
      overlaid_member before after o tool k t (tighten v (lookup r b tool k t)) w e

  -- The verdict is at least as strict as each verdict that the base or an overlay gives on a text
  -- of the subject.
  pub decide_layered_bounds :
      (base : Set) (before after : List Set) (o : Set) (tool t : Text) (s : Subject) (w : Verb)
      → contains (texts s) t ≡ true
      → (lookup r base tool s.kind t ≡ some w) ⊎ (lookup r o tool s.kind t ≡ some w)
      → rank w
        ≤ rank
            (decide_layered r (record { base = base; overlays = before ++ (o ∷ after) }) tool s).0
  unfolding decide_layered
  decide_layered_bounds base before after o tool t s w m (inl e) = omega (
    arith,
    ap (λ v. rank (or_ask v)) e,
    overlaid_above (before ++ (o ∷ after)) tool s.kind t (or_ask (lookup r base tool s.kind t)),
    (judge-Strictest s _).bounds t m,
  )
  decide_layered_bounds base before after o tool t s w m (inr e) = omega (
    arith,
    overlaid_member before after o tool s.kind t (or_ask (lookup r base tool s.kind t)) w e,
    (judge-Strictest s _).bounds t m,
  )
