-- ===== src/Client/Actions.antt =====
-- Rules for the methods of the client: what is known when one of them has returned.
pub mod Limits
pub mod Prompt
pub mod Order
use abb_librws.Base.{◌≡◌, refl, sym, ap, ◌∙◌, Bool, true, false, Text, if◌then◌else◌, arith}
use abb_librws.Poco.Types.{Outcome, done, raised}
use abb_librws.Poco.Work.{Client}
use abb_librws.Poco.Work.Rules.{Leads}
use abb_librws.Client.Types.{RwsClient, R, and_run, pure, ◌>>=◌, on_poco}

-- An action that returns has a first part that returns.
pub and_run_returns :
    {Jar A B : Type 0} (p : Outcome A × RwsClient Jar) (f : A → R Jar B) (b : B) (d : RwsClient Jar)
    → and_run p f ≡ (done b, d)
    → (a : A) × (c : RwsClient Jar) × (p ≡ (done a, c)) × (f a c ≡ (done b, d))
and_run_returns (done a, c) f b d e = (a, c, refl, e)
and_run_returns {B = B} (raised x, c) f b d e = cc (ap (λ (p : Outcome B × RwsClient _). p.0) e)

-- Under a test that fails, the other branch is what runs.
pub else_runs {ℓ} :
    {A : Type ℓ} (b : Bool) (x y z : A) → b ≡ false → (if b then x else y) ≡ z → y ≡ z
else_runs true x y z h e = cc
else_runs false x y z h e = e

pub on_poco_returns :
    {Jar A : Type 0} (m : Client Jar → Outcome A × Client Jar) (a : A) (c d : RwsClient Jar)
    → on_poco m c ≡ (done a, d)
    → (m c.poco ≡ (done a, d.poco)) × (d.subscription_group_id ≡ c.subscription_group_id)
on_poco_returns {Jar} {A} m a c d e = (
  ap (λ (p : Outcome A × RwsClient Jar). (p.0, p.1.poco)) e,
  sym (ap (λ (p : Outcome A × RwsClient Jar). p.1.subscription_group_id) e),
)

-- What an outcome holds, or this value if it holds none
abbrev value_of {ℓ} : {A : Type ℓ} → A → Outcome A → A
value_of a (done b) = b
value_of a (raised e) = a

pub pure_returns :
    {Jar A : Type 0} (a b : A) (c d : RwsClient Jar) → pure a c ≡ (done b, d) → (a ≡ b) × (c ≡ d)
pure_returns {Jar} {A} a b c d e = (
  ap (λ (p : Outcome A × RwsClient Jar). value_of a p.0) e,
  ap (λ (p : Outcome A × RwsClient Jar). p.1) e,
)

module _ {Jar : Type 0} where
  -- A test under which an action gives false unless it is passed
  pub passed :
      (b : Bool) (m : R Jar Bool) (c d : RwsClient Jar)
      → (if b then m else pure false) c ≡ (done true, d)
      → (b ≡ true) × (m c ≡ (done true, d))
  passed true m c d e = (refl, e)
  passed false m c d e = absurd (ground arith)

  pub answers :
      (b : Bool) (c d : RwsClient Jar)
      → pure {Jar = Jar} b c ≡ (done true, d)
      → (b ≡ true) × (c ≡ d)
  answers true c d e = (refl, ap (λ (p : Outcome Bool × RwsClient Jar). p.1) e)
  answers false c d e = absurd (ground arith)

  -- Of two tests in a row, both have passed.
  pub both_passed :
      (m k : R Jar Bool) (c d : RwsClient Jar)
      → (m >>= λ b. if b then k else pure false) c ≡ (done true, d)
      → (c1 : RwsClient Jar) × (m c ≡ (done true, c1)) × (k c1 ≡ (done true, d))
  both_passed m k c d e =
      let (b, c1, e1, rest) = and_run_returns (m c) (λ b. if b then k else pure false) true d e in
      let (b_so, next) = passed b k c1 d rest in (c1, cc, next)

module _ {Jar A B : Type 0} where
  Leads-and_run :
      {P Q : RwsClient Jar → Type 0} (p : Outcome A × RwsClient Jar) (f : A → R Jar B)
      → P p.1
      → ((x : A) → Leads P Q (f x))
      → ((c : RwsClient Jar) → P c → Q c)
      → Q (and_run p f).1
  Leads-and_run (done x, c) f h k weaken = (k x).at c h
  Leads-and_run (raised x, c) f h k weaken = weaken c h

  -- What a method leads to, by its parts
  pub Leads-bind :
      {P Q S : RwsClient Jar → Type 0} (m : R Jar A) (f : A → R Jar B)
      → Leads P Q m
      → ((x : A) → Leads Q S (f x))
      → ((c : RwsClient Jar) → Q c → S c)
      → Leads P S (m >>= f)
  Leads-bind m f h k weaken = record { at = λ c p. Leads-and_run (m c) f (h.at c p) k weaken }

  pub Leads-keep :
      {P : RwsClient Jar → Type 0} (m : R Jar A) (f : A → R Jar B)
      → Leads P P m
      → ((x : A) → Leads P P (f x))
      → Leads P P (m >>= f)
  Leads-keep m f h k = Leads-bind m f h k (λ c p. p)
