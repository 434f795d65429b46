-- ===== src/Worker/Reconcile.antt =====
-- panel/worker/app/handlers.py: the loop over the pages of a Remnawave panel's users. A user of a page is
-- normalized already, so it has a uuid; the Remnawave panel and the backend answer over HTTP.
pub mod Ends
mod Tests
use vpn_management_panel.Prelude.{
  ℕ, zero, suc, ◌+◌, String, Bool, true, false, ◌&&◌, Option, none, some, List, [], ◌∷◌, ◌++◌, map,
  length, leb, filled, text_or, not, if◌then◌else◌,
}
use vpn_management_panel.Worker.NodeClient.{
  Exception, http_status_error, error, Io, ◌>>=◌, ◌>>◌, pure, raise, catch,
}

-- What the worker counts; the uuids are those of the set `seen_uuids`, in the order in which they came.
pub record Totals : Type 0 where
  pub seen_uuids : List String
  pub pages : ℕ
  pub users : ℕ
  pub upserted : ℕ
  pub total : Option ℕ

abbrev pub no_totals : Totals
no_totals = record { seen_uuids = []; pages = 0; users = 0; upserted = 0; total = none }

-- The Remnawave panel and the backend, for users U. The backend answers with the number of users that it
-- upserted, if it names it.
pub record Sources (S U : Type 0) : Type 0 where
  pub uuid : U → String
  -- `list_users(start=..., size=PAGE_SIZE)` and `extract_users_page`
  pub list_users : ℕ → Io S (List U × Option ℕ)
  pub upsert_remnawave_users : List U → Io S (Option ℕ)

-- `_http_error_detail`'s exceptions stay exceptions, so only the message differs.
abbrev pub page_size : ℕ
page_size = 25

abbrev pub or_length : Option ℕ → ℕ → ℕ
or_length none n = n
or_length (some upserted) n = upserted

-- `total is not None and start >= total`
abbrev pub is_complete : Option ℕ → ℕ → Bool
is_complete none start = false
is_complete (some total) start = leb total start

module _ {S U : Type 0} (sources : Sources S U) where
  abbrev pub counted : List U → Option ℕ → Option ℕ → Totals → Totals
  counted users total upserted t = record {
    seen_uuids = t.seen_uuids ++ map sources.uuid users;
    pages = t.pages + 1;
    users = t.users + length users;
    upserted = t.upserted + or_length upserted (length users);
    total = total;
  }

  -- The loop of `_remnawave_full_reconcile`: `none` is a loop that has not ended.
  unfoldable pub reconcile_pages : ℕ → ℕ → Totals → Io S (Option Totals)
  reconcile_pages zero start t = pure none
  reconcile_pages (suc fuel) start t = sources.list_users start >>= λ (users, total). elim users [
    | [] ↦ pure (some (record t { total = total }))
    | ◌∷◌ user others ↦ sources.upsert_remnawave_users (user ∷ others) >>= λ upserted.
        let next = counted (user ∷ others) total upserted t in
        let start' = start + length (user ∷ others) in
        let rest = reconcile_pages fuel start' next in
        if is_complete total start' then pure (some next) else rest
  ]
