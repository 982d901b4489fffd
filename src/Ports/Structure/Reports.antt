-- ===== src/Ports/Structure/Reports.antt =====
-- sim/ports.h, `ReadWriteStructure::OnArbitrate`: what the ports that ask for an index are told.
use mgsim.Base.{
  ℕ, ◌≡◌, refl, sym, ap, subst, ◌∙◌, true, false, Option, List, [], ◌∷◌, ◌==◌, if◌then◌else◌, inl,
  inr, Bool-cases, arith,
}
use mgsim.Ports.{member}
use mgsim.Ports.Choice.{All}
use mgsim.Ports.Structure.{WritePort, notify, update, is_selected, notify_all, select_port, serve}
use mgsim.Ports.Structure.Groups.{ports_at, asks, Above, Sorted, Sound, ports_at-Above, if_same}

update_self : (f : ℕ → WritePort) (p : ℕ) (w : WritePort) → update f p w p ≡ w
update_self f p w = ground arith

update_other :
    (f : ℕ → WritePort) (p q : ℕ) (w : WritePort) → (q == p) ≡ false → update f p w q ≡ f q
update_other f p q w e = ground arith

notify_all_lem :
    (selected : Option ℕ) (ps : List ℕ) (f : ℕ → WritePort) (p : ℕ)
    → notify_all selected ps f p
      ≡ (if member p ps then notify (is_selected selected p) (f p) else f p)
unfolding notify_all member
notify_all_lem selected [] f p = refl
notify_all_lem selected (q ∷ ps) f p =
    let next = update f q (notify (is_selected selected q) (f q)) in
    let rest = notify_all_lem selected ps next p in
    elim (Bool-cases (p == q)) [
      | inl e ↦
          let same : p ≡ q = ground arith in
          let here : next p ≡ notify (is_selected selected p) (f p) = ground arith in
          let again : WritePort → WritePort =
            λ w. if member p ps then notify (is_selected selected p) w else w in
          rw e
            (rest ∙ (ap again here ∙ if_same (member p ps) (notify (is_selected selected p) (f p))))
      | inr e ↦ rw e (
          rest
          ∙ ap (λ w. if member p ps then notify (is_selected selected p) w else w)
              (update_other f q p (notify (is_selected selected q) (f q)) e))
    ]

member-asks :
    (f : ℕ → WritePort) (j k p : ℕ) (ps : List ℕ)
    → All (λ q. asks f j q ≡ true) ps
    → asks f k p ≡ true
    → (k == j) ≡ false
    → member p ps ≡ false
unfolding member
member-asks f j k p [] a h e = refl
member-asks f j k p (q ∷ ps) (b, a) h e = elim (Bool-cases (p == q)) [
  | inl m ↦
      let same : p ≡ q = ground arith in
      let both : asks f k q ≡ true = subst (λ x. asks f k x ≡ true) same h in
      absurd (ground (arith, b, both, e))
  | inr m ↦ rw m (member-asks f j k p ps a h e)
]

-- The report to a port that asks for an index.
pub serve_lem :
    (priorities : List ℕ) (g : ℕ → WritePort) (k p : ℕ) (gs : List (ℕ × List ℕ)) (f : ℕ → WritePort)
    → Sorted gs
    → Sound g gs
    → asks g k p ≡ true
    → serve priorities gs f p ≡ (
        if member p (ports_at k gs)
        then notify (is_selected (select_port priorities (ports_at k gs)) p) (f p)
        else f p)
unfolding serve
serve_lem priorities g k p [] f s d h = unfold member in refl
serve_lem priorities g k p ((j, ps) ∷ gs) f (a, s) (b, d) h =
    let next = notify_all (select_port priorities ps) ps f in
    let rest = serve_lem priorities g k p gs next s d h in
    let here = notify_all_lem (select_port priorities ps) ps f p in
    elim (Bool-cases (k == j)) [
      | inl e ↦
          let same : k ≡ j = ground arith in
          let gone : ports_at k gs ≡ [] =
            ports_at-Above k gs (subst (λ i. Above i gs) (sym same) a) in
          let kept : serve priorities gs next p ≡ next p =
            rest
            ∙ ap
                (λ l.
                  if member p l
                  then notify (is_selected (select_port priorities l) p) (next p)
                  else next p)
                gone
            ∙ (unfold member in refl) in
          rw e (kept ∙ here)
      | inr e ↦
          let out = member-asks g j k p ps b h e in
          let same : next p ≡ f p = rw out at here in
          rw e (
            rest
            ∙ ap
                (λ w.
                  if member p (ports_at k gs)
                  then notify (is_selected (select_port priorities (ports_at k gs)) p) w
                  else w)
                same)
    ]
