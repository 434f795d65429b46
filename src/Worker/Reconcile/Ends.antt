-- ===== src/Worker/Reconcile/Ends.antt =====
-- The loop ends, and has seen every user.
use mathlib.Core.List.{append_assoc, append-nil}
use vpn_management_panel.Prelude.{
  ℕ, zero, suc, ◌+◌, ◌≤◌, String, ◌≡◌, refl, sym, ap, ◌∙◌, ◌⊎◌, inl, inr, true, Option, none, some,
  List, [], ◌∷◌, ◌++◌, map, length, arith, Bool-cases, if◌then◌else◌,
}
use vpn_management_panel.Worker.NodeClient.{done, pure, >>=-done}
use vpn_management_panel.Worker.Reconcile.{
  Totals, no_totals, Sources, is_complete, counted, reconcile_pages,
}

too_long : (n : ℕ) → suc n ≤ 0 → ⊥
too_long n e = omega (arith, e)

module _ {A : Type 0} where
  length-append : (xs ys : List A) → length (xs ++ ys) ≡ length xs + length ys
  length-append [] ys = omega arith
  length-append (x ∷ xs) ys = omega (arith, length-append xs ys)

  empty : (xs : List A) → length xs ≤ 0 → xs ≡ []
  empty [] e = refl
  empty (x ∷ xs) e = absurd (too_long (length xs) e)

-- When the total is reached, nothing is left.
none_left :
    {U : Type 0} (all before page rest : List U) (total : Option ℕ)
    → all ≡ (before ++ page) ++ rest
    → (total ≡ none) ⊎ (total ≡ some (length all))
    → is_complete total (length before + length page) ≡ true
    → length rest ≤ 0
none_left all before page rest none whole size complete = cc
none_left all before page rest (some n) whole (inl e) complete = cc
none_left all before page rest (some n) whole (inr e) complete =
    let is : n ≡ length all = cc in
    let within : n ≤ length before + length page = ground arith in
    omega (
      arith,
      is,
      within,
      ap length whole,
      length-append (before ++ page) rest,
      length-append before page,
    )

map-append : {A B : Type 0} (f : A → B) (xs ys : List A) → map f (xs ++ ys) ≡ map f xs ++ map f ys
map-append f [] ys = refl
map-append f (x ∷ xs) ys = ap (◌∷◌ (f x)) (map-append f xs ys)

-- The users that a Remnawave panel has, page by page: a page starts where it is asked to and is empty only
-- at the end, and the total, if there is one, is their number. The backend takes every page.
pub record Serves {S U : Type 0} (sources : Sources S U) (all : List U) : Type 0 where
  pub lists :
      (before after : List U)
      → all ≡ before ++ after
      → (s : S)
      → (users : List U) × (rest : List U) × (total : Option ℕ) × (s' : S) × (sources.list_users
            (length before)
            s
          ≡ done (users, total) s')
        × (after ≡ users ++ rest)
        × (users ≡ [] → after ≡ [])
        × ((total ≡ none) ⊎ (total ≡ some (length all)))
  pub upserts :
      (users : List U) (s : S)
      → (n : Option ℕ) × (s' : S) × (sources.upsert_remnawave_users users s ≡ done n s')

module _ {S U : Type 0} (sources : Sources S U) (all : List U) (serves : Serves sources all) where
  -- The loop has ended in totals that name every user.
  abbrev Ends : ℕ → ℕ → Totals → S → Type 0
  Ends fuel start t s =
      (t' : Totals) × (s' : S) × (reconcile_pages sources fuel start t s ≡ done (some t') s')
      × (t'.seen_uuids ≡ map sources.uuid all)

  abbrev Rest : ℕ → Type 0
  Rest fuel =
      (before after : List U) (t : Totals) (s : S)
      → all ≡ before ++ after
      → t.seen_uuids ≡ map sources.uuid before
      → length after + 1 ≤ fuel
      → Ends fuel (length before) t s

  page-Ends :
      (fuel : ℕ) (before after users rest : List U) (t : Totals) (total : Option ℕ) (s s₁ : S)
      → Rest fuel
      → all ≡ before ++ after
      → t.seen_uuids ≡ map sources.uuid before
      → length after + 1 ≤ suc fuel
      → sources.list_users (length before) s ≡ done (users, total) s₁
      → after ≡ users ++ rest
      → (users ≡ [] → after ≡ [])
      → (total ≡ none) ⊎ (total ≡ some (length all))
      → Ends (suc fuel) (length before) t s
  unfolding reconcile_pages
  page-Ends fuel before after [] rest t total s s₁ later is seen enough listed split ended size =
      let whole : all ≡ before = is ∙ ap (◌++◌ before) (ended refl) ∙ append-nil before in
      (
        record t { total = total },
        s₁,
        >>=-done (sources.list_users (length before)) _ listed,
        seen ∙ ap (map sources.uuid) (sym whole),
      )
  page-Ends fuel before after (user ∷ users) rest t total s s₁ later is seen enough listed split
        ended size =
      let (n, s₂, upserted) = serves.upserts (user ∷ users) s₁ in
      let page = user ∷ users in
      let next = counted sources page total n t in
      let start' = length before + length page in
      let whole : all ≡ (before ++ page) ++ rest =
        is ∙ ap (◌++◌ before) split ∙ sym (append_assoc before page rest) in
      let reached : reconcile_pages sources (suc fuel) (length before) t s
          ≡ (if is_complete total start'
                then pure (some next)
                else reconcile_pages sources fuel start' next)
              s₂ =
        >>=-done (sources.list_users (length before)) _ listed
        ∙ >>=-done (sources.upsert_remnawave_users page) _ upserted in
      let named : next.seen_uuids ≡ map sources.uuid (before ++ page) =
        ap (λ (us : List String). us ++ map sources.uuid page) seen
        ∙ sym (map-append sources.uuid before page) in
      elim (Bool-cases (is_complete total start')) [
        | inl complete ↦
            let nothing_left : rest ≡ [] =
              empty rest (none_left all before page rest total whole size complete) in
            let covered : all ≡ before ++ page =
              whole ∙ ap (◌++◌ (before ++ page)) nothing_left ∙ append-nil (before ++ page) in
            (next, s₂, reached ∙ rw complete refl, named ∙ ap (map sources.uuid) (sym covered))
        | inr goes_on ↦
            let shorter : length rest + 1 ≤ fuel =
              omega (arith, enough, ap length split, length-append page rest) in
            let (t', s', run, all_seen) = later (before ++ page) rest next s₂ whole named shorter in
            (
              t',
              s',
              reached
                  ∙ rw goes_on (
                      ap (λ (k : ℕ). reconcile_pages sources fuel k next s₂)
                        (sym (length-append before page)))
                  ∙ run,
              all_seen,
            )
      ]

  Rest-Ends : (fuel : ℕ) → Rest fuel
  Rest-Ends zero before after t s is seen enough =
      absurd (too_long (length after) (omega (arith, enough)))
  Rest-Ends (suc fuel) before after t s is seen enough =
      let (users, rest, total, s₁, listed, split, ended, size) = serves.lists before after is s in
      page-Ends fuel before after users rest t total s s₁ (Rest-Ends fuel) is seen enough listed
        split ended size

  -- When the Remnawave panel serves its users page by page and the backend takes every page, the loop ends
  -- within one page more than there are users, and it has seen the uuid of every user, in their order.
  pub reconcile_pages-Ends :
      (fuel : ℕ) (s : S)
      → length all + 1 ≤ fuel
      → (t : Totals) × (s' : S) × (reconcile_pages sources fuel 0 no_totals s ≡ done (some t) s')
        × (t.seen_uuids ≡ map sources.uuid all)
  reconcile_pages-Ends fuel s enough = Rest-Ends fuel [] all no_totals s refl refl enough
