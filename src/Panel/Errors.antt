-- ===== src/Panel/Errors.antt =====
-- What the services raise, and computations over the database that may raise. A request that raises
-- is rolled back, so an error carries no database.
use vpn_management_panel.Prelude.{◌≡◌, refl, sym, ◌∙◌, ◌⊎◌, inl, inr, ℕ, Option}
use vpn_management_panel.Panel.Models.{Db}

-- The `code` of an account's standing.
pub data Code : Type 0 where
  active blocked limited expired : Code

-- The `reason` reported with it.
pub data Reason : Type 0 where
  blocked limited expired disabled deleted : Reason

pub data Error : Type 0 where
  -- ValueError: the owner no longer exists
  user_not_found : ℕ → Error
  device_limit_exceeded : (limit current : ℕ) → Error
  device_ip_allocation : (attempts : ℕ) → Error
  device_ip_pool_exhausted : Error
  account_inactive : Code → Option Reason → Error
  -- an IntegrityError of another constraint than the unique address
  integrity : Error
  -- HTTPException 404 and 409
  not_found conflict : Error

pub data Result {ℓ} (A : Type ℓ) : Type ℓ where
  ok : A → Result A
  err : Error → Result A

abbrev pub M : Type 0 → Type 0
M A = Db → Result (A × Db)

infixl 5 ◌>>=◌ ◌>>◌
abbrev pub ◌>>=◌ : {A B : Type 0} → M A → (A → M B) → M B
◌>>=◌ m f db = elim (m db) [ ok (a, db') ↦ f a db' | err e ↦ err e ]

abbrev pub ◌>>◌ : {B : Type 0} → M (Unit {0}) → M B → M B
m >> k = m >>= λ _. k

abbrev pub pure : {A : Type 0} → A → M A
pure a db = ok (a, db)

abbrev pub raise : {A : Type 0} → Error → M A
raise e db = err e

-- To split on an answer and keep the equation.
pub Result-cases {ℓ} :
    {A : Type ℓ} (r : Result A) → ((e : Error) × (r ≡ err e)) ⊎ ((a : A) × (r ≡ ok a))
Result-cases (ok a) = inr (a, refl)
Result-cases (err e) = inl (e, refl)

-- An error ends the computation.
pub >>=-err :
    {A B : Type 0} (m : M A) (k : A → M B) {db : Db} {e : Error}
    → m db ≡ err e
    → (m >>= k) db ≡ err e
>>=-err m k e = rw (◌>>=◌, e) refl

-- An answer is passed on with its database.
pub >>=-ok :
    {A B : Type 0} (m : M A) (k : A → M B) {db db' : Db} {a : A}
    → m db ≡ ok (a, db')
    → (m >>= k) db ≡ k a db'
>>=-ok m k e = rw (◌>>=◌, e) refl

-- A computation that answered has answered at each step.
pub >>=-inv :
    {A B : Type 0} (m : M A) (k : A → M B) (db : Db) {r : B × Db}
    → (m >>= k) db ≡ ok r
    → (a : A) × (db' : Db) × (m db ≡ ok (a, db')) × (k a db' ≡ ok r)
>>=-inv m k db e = elim (Result-cases (m db)) [
  | inl (x, q) ↦ let left = sym (>>=-err m k q) ∙ e in cc
  | inr ((a, db'), q) ↦ (a, db', q, sym (>>=-ok m k q) ∙ e)
]
