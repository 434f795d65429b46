-- ===== src/Panel/Retention/Samples.antt =====
-- panel/backend/app/services/traffic_retention.py: which samples a cleanup takes.
use vpn_management_panel.Prelude.{
  In-select, ℕ, ◌+◌, Bool, true, false, not, ◌&&◌, ◌||◌, ◌≡◌, refl, ap, ◌∙◌, List, [], ◌∷◌, ◌==◌,
  ltb, any, select, count_if, length, In, inl, inr, arith, Bool-cases,
}
use vpn_management_panel.Panel.Models.{Peer, PeerTrafficSample, TrafficDelta, Db}
use vpn_management_panel.Panel.Retention.{
  is_delta_of, is_daily_summed, is_summed, is_deletable, cutoff_at, cleanup_raw_traffic_samples,
}

-- What is taken and what stays are all.
count_if-select :
    (t : PeerTrafficSample → Bool) (samples : List PeerTrafficSample)
    → length (select (λ s. not (t s)) samples) + count_if t samples ≡ length samples
count_if-select t [] = refl
count_if-select t (s ∷ samples) = let rest = count_if-select t samples in ground (arith, rest)

no_more :
    (t : PeerTrafficSample → Bool) (samples : List PeerTrafficSample)
    → count_if t (select (λ s. not (t s)) samples) ≡ 0
no_more t [] = refl
no_more t (s ∷ samples) = let rest = no_more t samples in ground (arith, rest)

undelta :
    (db : Db) (s : PeerTrafficSample) (p : Peer) (deltas : List TrafficDelta)
    → any (is_delta_of s) deltas ≡ false
    → any (is_daily_summed db s p) deltas ≡ false
unfolding is_daily_summed
undelta db s p [] e = refl
undelta db s p (d ∷ deltas) e = let rest = undelta db s p deltas in ground (arith, rest)

unsummed :
    (db : Db) (s : PeerTrafficSample) (peers : List Peer)
    → any (is_delta_of s) db.deltas ≡ false
    → any (is_summed db s) peers ≡ false
unfolding is_summed
unsummed db s [] e = refl
unsummed db s (p ∷ peers) e =
    let rest = unsummed db s peers e in
    let none_here = undelta db s p db.deltas e in ground (arith, rest, none_here)

undeletable :
    (db : Db) (cutoff : ℕ) (s : PeerTrafficSample)
    → (ltb s.sampled_at cutoff && any (is_delta_of s) db.deltas) ≡ false
    → is_deletable db cutoff s ≡ false
unfolding is_deletable
undeletable db cutoff s e = elim (Bool-cases (any (is_delta_of s) db.deltas)) [
  | inl some_delta ↦ ground (arith, e)
  | inr no_delta ↦ let gone = unsummed db s db.peers no_delta in ground (arith, gone)
]

-- A cleanup keeps every sample that is not before the cutoff, and every one whose traffic no stored
-- delta repeats.
pub cleanup_raw_traffic_samples-In :
    (now retention_days : ℕ) (db : Db) (s : PeerTrafficSample)
    → In s db.samples
    → (ltb s.sampled_at (cutoff_at now retention_days) && any (is_delta_of s) db.deltas) ≡ false
    → In s (cleanup_raw_traffic_samples now retention_days db).1.samples
unfolding cleanup_raw_traffic_samples
cleanup_raw_traffic_samples-In now days db s m e =
    let cutoff = cutoff_at now days in
    let stays : not (is_deletable db cutoff s) ≡ true = ap not (undeletable db cutoff s e) in
    let kept = In-select (λ s. not (is_deletable db cutoff s)) db.samples s m stays in
    elim (Bool-cases (days == 0)) [
      | inl off ↦ rw off m
      | inr on ↦ elim (Bool-cases (count_if (is_deletable db cutoff) db.samples == 0)) [
        | inl zero_found ↦ rw (on, zero_found) m
        | inr found ↦ rw (on, found) kept
      ]
    ]

module _ (now days : ℕ) (db : Db) where
  abbrev found : ℕ
  found = count_if (is_deletable db (cutoff_at now days)) db.samples

  abbrev kept : Db
  kept = record db {
    samples = select (λ s. not (is_deletable db (cutoff_at now days) s)) db.samples;
  }

  -- Nothing is asked for, or nothing is found.
  cleanup-none :
      (days == 0 || found == 0) ≡ true
      → ((cleanup_raw_traffic_samples now days db).0.deleted ≡ 0)
        × ((cleanup_raw_traffic_samples now days db).1 ≡ db)
  unfolding cleanup_raw_traffic_samples
  cleanup-none e = elim (Bool-cases (days == 0)) [
    | inl off ↦ (rw off refl, rw off refl)
    | inr on ↦
        let zero_found : (found == 0) ≡ true = ground (arith, e, on) in
        (rw (on, zero_found) refl, rw (on, zero_found) refl)
  ]

  cleanup-some :
      (days == 0 || found == 0) ≡ false
      → ((cleanup_raw_traffic_samples now days db).0.deleted ≡ found)
        × ((cleanup_raw_traffic_samples now days db).1 ≡ kept)
  unfolding cleanup_raw_traffic_samples
  cleanup-some e =
      let on : (days == 0) ≡ false = ground (arith, e) in
      let more : (found == 0) ≡ false = ground (arith, e) in
      (rw (on, more) refl, rw (on, more) refl)

  kept-none :
      (days == 0 || count_if (is_deletable kept (cutoff_at now days)) kept.samples == 0) ≡ true
  unfolding is_deletable is_summed is_daily_summed
  kept-none =
      let again = no_more (is_deletable db (cutoff_at now days)) db.samples in ground (arith, again)

-- The number that a cleanup reports is that of the samples it took, and a second cleanup at the same
-- time takes none.
pub cleanup_raw_traffic_samples-deleted :
    (now retention_days : ℕ) (db : Db)
    → (length (cleanup_raw_traffic_samples now retention_days db).1.samples
          + (cleanup_raw_traffic_samples now retention_days db).0.deleted
        ≡ length db.samples)
      × ((cleanup_raw_traffic_samples now retention_days
            (cleanup_raw_traffic_samples now retention_days db).1).0.deleted
          ≡ 0)
cleanup_raw_traffic_samples-deleted now days db =
    let again = λ (d : Db). (cleanup_raw_traffic_samples now days d).0.deleted in
    elim (Bool-cases (days == 0 || found now days db == 0)) [
      | inl e ↦
          let (n, same) = cleanup-none now days db e in
          let size = ap (λ (d : Db). length d.samples) same in
          (omega (arith, n, size), ap again same ∙ n)
      | inr e ↦
          let (n, same) = cleanup-some now days db e in
          let size = ap (λ (d : Db). length d.samples) same in
          let split = count_if-select (is_deletable db (cutoff_at now days)) db.samples in
          (
            omega (arith, n, size, split),
            ap again same ∙ (cleanup-none now days (kept now days db) (kept-none now days db)).0,
          )
    ]
