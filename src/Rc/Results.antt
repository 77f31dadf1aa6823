-- ===== src/Rc/Results.antt =====
-- What a chain of `Outcome` results that ends well has gone through.
use miniob.Base.{◌≡◌, refl, sym, ap, ◌∙◌, Bool, true, false, if◌then◌else◌}
use miniob.Rc.{Rc, Outcome, ok, err, fault, ◌>>=◌}

pub bind-ok {ℓ κ} :
    {A : Type ℓ} {B : Type κ} (m : Outcome A) (k : A → Outcome B) (b : B)
    → m >>= k ≡ ok b
    → (a : A) × (m ≡ ok a) × (k a ≡ ok b)
bind-ok (ok a) k b h = (a, refl, h)
bind-ok (err e) k b h = absurd (cc h)
bind-ok fault k b h = absurd (cc h)

pub bind-known {ℓ κ} :
    {A : Type ℓ} {B : Type κ} (m : Outcome A) (k : A → Outcome B) (a : A) (b : B)
    → m ≡ ok a
    → m >>= k ≡ ok b
    → k a ≡ ok b
bind-known m k a b e h = sym (ap (λ x. x >>= k) e) ∙ h

pub ok-injective {ℓ} : {A : Type ℓ} (a b : A) → ok a ≡ ok b → a ≡ b
ok-injective a b h = cc

pub guard-ok {ℓ} :
    {A : Type ℓ} (b : Bool) (rc : Rc) (m : Outcome A) (a : A)
    → (if b then err rc else m) ≡ ok a
    → m ≡ ok a
guard-ok true rc m a h = absurd (cc h)
guard-ok false rc m a h = h
