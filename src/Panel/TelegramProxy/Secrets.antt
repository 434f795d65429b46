-- ===== src/Panel/TelegramProxy/Secrets.antt =====
-- The secret in a link to the Telegram proxy.
use vpn_management_panel.Prelude.{
  ℕ, suc, String, ◌≡◌, refl, Bool, true, false, ◌&&◌, ◌==◌, ==_iff, starts_with, text_length,
  drop_two, arith,
}
use vpn_management_panel.Panel.TelegramProxy.{all_hex, is_normal_secret, is_dd_secret, base_secret}

two_shorter : (s : String) (n : ℕ) → text_length s ≡ suc (suc n) → text_length (drop_two s) ≡ n
unfolding text_length
two_shorter String.[] n e = omega (arith, e)
two_shorter (String.◌∷◌ c String.[]) n e = omega (arith, e)
two_shorter (String.◌∷◌ c (String.◌∷◌ d s)) n e = omega (arith, e)

right_of : (a b : Bool) → (a && b) ≡ true → b ≡ true
right_of true b e = e
right_of false b e = cc

left_of : (a b : Bool) → (a && b) ≡ true → a ≡ true
left_of true b e = refl
left_of false b e = cc

normal-length : (s : String) → is_normal_secret s ≡ true → text_length s ≡ 32
unfolding is_normal_secret
normal-length s e = (==_iff (text_length s) 32).0 (right_of (all_hex s) (text_length s == 32) e)

-- The secret of a link has the 32 digits of a valid secret, with or without the mark dd, unless the 32
-- digits themselves begin with dd: then it has 30.
pub base_secret-length :
    (s : String)
    → ((is_dd_secret s ≡ true) → text_length (base_secret s) ≡ 32)
      × (is_normal_secret s ≡ true → starts_with "dd" s ≡ false → text_length (base_secret s) ≡ 32)
      × (is_normal_secret s ≡ true → starts_with "dd" s ≡ true → text_length (base_secret s) ≡ 30)
unfolding base_secret is_dd_secret
base_secret-length s = (
  λ dd.
      let digits =
        normal-length (drop_two s)
          (right_of (starts_with "dd" s) (is_normal_secret (drop_two s)) dd) in
      let marked = left_of (starts_with "dd" s) (is_normal_secret (drop_two s)) dd in
      rw marked digits,
  λ normal plain. rw plain (normal-length s normal),
  λ normal marked. rw marked (two_shorter s 30 (normal-length s normal)),
)
