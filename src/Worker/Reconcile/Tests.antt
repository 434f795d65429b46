-- ===== src/Worker/Reconcile/Tests.antt =====
-- A Remnawave panel of two users, which serves all that is left on each page.
use mathlib.Core.List.{append-nil}
use vpn_management_panel.Prelude.{
  ℕ, zero, suc, ◌+◌, String, ◌≡◌, refl, sym, ap, ◌∙◌, inl, none, some, List, [], ◌∷◌, ◌++◌, length,
  arith,
}
use vpn_management_panel.Worker.NodeClient.{done}
use vpn_management_panel.Worker.Reconcile.{Totals, no_totals, Sources, reconcile_pages}
use vpn_management_panel.Worker.Reconcile.Ends.{Serves, reconcile_pages-Ends}

abbrev from : ℕ → List String → List String
from zero users = users
from (suc n) [] = []
from (suc n) (user ∷ users) = from n users

abbrev remote_users : List String
remote_users = "alice" ∷ "bob" ∷ []

abbrev sources : Sources ℕ String
sources = record {
  uuid = λ user. user;
  list_users = λ start s. done (from start remote_users, none) (s + 1);
  upsert_remnawave_users = λ users s. done none (s + 1);
}

from-append : (before after : List String) → from (length before) (before ++ after) ≡ after
from-append [] after = refl
from-append (user ∷ before) after = from-append before after

sources-Serves : Serves sources remote_users
sources-Serves = record {
  lists = λ before after is s.
      let left = ap (from (length before)) is ∙ from-append before after in
      (
        from (length before) remote_users,
        [],
        none,
        s + 1,
        refl,
        sym left ∙ sym (append-nil (from (length before) remote_users)),
        λ e. sym left ∙ e,
        inl refl,
      );
  upserts = λ users s. (none, s + 1, refl);
}

reconcile_pages-Ends_example :
    (t : Totals) × (s' : ℕ) × (reconcile_pages sources 3 0 no_totals 0 ≡ done (some t) s')
    × (t.seen_uuids ≡ "alice" ∷ "bob" ∷ [])
reconcile_pages-Ends_example =
    reconcile_pages-Ends sources remote_users sources-Serves 3 0 (omega arith)
