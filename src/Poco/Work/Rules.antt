-- ===== src/Poco/Work/Rules.antt =====
-- Rules for the actions: how many requests they send, and what holds when they return.
use abb_librws.Base.{
  ℕ, suc, ◌+◌, ◌≤◌, ◌≡◌, refl, ap, subst, arith, Bool, true, false, if◌then◌else◌, [], ◌∷◌,
}
use abb_librws.Poco.Types.{Outcome, done, raised}
use abb_librws.Poco.Work.{sent, upgraded, History, Work, M, and_run, ◌>>=◌, modify, when}

-- How many HTTP requests a history holds, those that upgrade the connection to a WebSocket with the others
abbrev pub sent_count : History → ℕ
sent_count [] = 0
sent_count (sent r t ∷ h) = suc (sent_count h)
sent_count (upgraded r ∷ h) = suc (sent_count h)
sent_count (_ ∷ h) = sent_count h

-- An action that sends at most so many requests, whether it returns or throws.
pub record Sends {Jar A : Type 0} (n : ℕ) (m : M Jar A) : Type 0 where
  pub at : (w : Work Jar) → sent_count (m w).1.history ≤ n + sent_count w.history

module _ {Jar A B : Type 0} where
  Sends-and_run :
      {b : ℕ} (p : Outcome A × Work Jar) (f : A → M Jar B)
      → ((x : A) → Sends b (f x))
      → sent_count (and_run p f).1.history ≤ b + sent_count p.1.history
  Sends-and_run (done x, w) f h = (h x).at w
  Sends-and_run (raised e, w) f h = omega arith

  pub Sends-bind :
      {a b : ℕ} (m : M Jar A) (f : A → M Jar B)
      → Sends a m
      → ((x : A) → Sends b (f x))
      → Sends (a + b) (m >>= f)
  Sends-bind m f g h = record { at = λ w. omega (arith, g.at w, Sends-and_run (m w) f h) }

-- From a state with `P`, an action that returns leaves a state with `Q`.
pub record Triple {Jar A : Type 0} (P Q : Work Jar → Type 0) (m : M Jar A) : Type 0 where
  pub at : (w : Work Jar) → P w → (a : A) (v : Work Jar) → m w ≡ (done a, v) → Q v

module _ {Jar A B : Type 0} where
  Triple-and_run :
      {Q R : Work Jar → Type 0} (p : Outcome A × Work Jar) (f : A → M Jar B)
      → ((a : A) (v : Work Jar) → p ≡ (done a, v) → Q v)
      → ((x : A) → Triple Q R (f x))
      → (b : B) (v : Work Jar) → and_run p f ≡ (done b, v)
      → R v
  Triple-and_run (done x, w) f h k b v e = (k x).at w (h x w refl) b v e
  Triple-and_run (raised x, w) f h k b v e = cc (ap (λ (p : Outcome B × Work Jar). p.0) e)

  pub Triple-bind :
      {P Q R : Work Jar → Type 0} (m : M Jar A) (f : A → M Jar B)
      → Triple P Q m
      → ((x : A) → Triple Q R (f x))
      → Triple P R (m >>= f)
  Triple-bind m f g k = record { at = λ w h. Triple-and_run (m w) f (g.at w h) k }

pub Triple-modify :
    {Jar : Type 0} {P Q : Work Jar → Type 0} (f : Work Jar → Work Jar)
    → ((w : Work Jar) → P w → Q (f w))
    → Triple P Q (modify f)
Triple-modify {Jar} {P} {Q} f h = record {
  at = λ w p a v e. subst Q (ap (λ (r : Outcome (Unit {0}) × Work Jar). r.1) e) (h w p);
}

pub Triple-when :
    {Jar : Type 0} {P : Work Jar → Type 0} (b : Bool) (m : M Jar (Unit {0}))
    → Triple P P m
    → Triple P P (when b m)
Triple-when true m h = h
Triple-when {P = P} false m h = Triple-modify (λ w. w) (λ w p. p)

pub Triple-weaken :
    {Jar A : Type 0} {P P' Q : Work Jar → Type 0} (m : M Jar A)
    → ((w : Work Jar) → P' w → P w)
    → Triple P Q m
    → Triple P' Q m
Triple-weaken m f h = record { at = λ w p. h.at w (f w p) }

-- From a state with `P`, an action leaves a state with `Q`, whether it returns or throws.
pub record Leads {S A : Type 0} (P Q : S → Type 0) (m : S → Outcome A × S) : Type 0 where
  pub at : (s : S) → P s → Q (m s).1

module _ {Jar A B : Type 0} where
  Leads-and_run :
      {Q R : Work Jar → Type 0} (p : Outcome A × Work Jar) (f : A → M Jar B)
      → Q p.1
      → ((x : A) → Leads Q R (f x))
      → ((w : Work Jar) → Q w → R w)
      → R (and_run p f).1
  Leads-and_run (done x, w) f q k weaken = (k x).at w q
  Leads-and_run (raised x, w) f q k weaken = weaken w q

  pub Leads-bind :
      {P Q R : Work Jar → Type 0} (m : M Jar A) (f : A → M Jar B)
      → Leads P Q m
      → ((x : A) → Leads Q R (f x))
      → ((w : Work Jar) → Q w → R w)
      → Leads P R (m >>= f)
  Leads-bind m f h k weaken = record { at = λ w p. Leads-and_run (m w) f (h.at w p) k weaken }

  -- An action keeps what its parts keep.
  pub Leads-keep :
      {P : Work Jar → Type 0} (m : M Jar A) (f : A → M Jar B)
      → Leads P P m
      → ((x : A) → Leads P P (f x))
      → Leads P P (m >>= f)
  Leads-keep m f h k = Leads-bind m f h k (λ w q. q)

pub Leads-when :
    {Jar : Type 0} {P : Work Jar → Type 0} (b : Bool) (m : M Jar (Unit {0}))
    → Leads P P m
    → Leads P P (when b m)
Leads-when true m h = h
Leads-when false m h = record { at = λ w p. p }

pub Leads-if :
    {S A : Type 0} {P Q : S → Type 0} (b : Bool) (m k : S → Outcome A × S)
    → Leads P Q m
    → Leads P Q k
    → Leads P Q (if b then m else k)
Leads-if true m k h g = h
Leads-if false m k h g = g
