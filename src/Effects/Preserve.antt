-- ===== src/Effects/Preserve.antt =====
-- Invariants of actions: `Preserves P m` says that `m` keeps `P`, also where it throws.
use replication_backend.Prelude.{Bool, true, false, if◌then◌else◌}
use replication_backend.Effects.{Error, Result, ok, throw, Io, pure, raise, catch, ◌>>=◌}

pub record Preserves {S A : Type 0} (P : S → Type 0) (m : Io S A) : Type 0 where
  pub run : (s : S) → P s → P (m s).1

module _ {S A : Type 0} {P : S → Type 0} where
  pub Preserves-pure : (a : A) → Preserves P (pure a)
  Preserves-pure a = record { run = λ s h. h }

  pub Preserves-raise : (e : Error) → Preserves P (raise {A = A} e)
  Preserves-raise e = record { run = λ s h. h }

  -- the two outcomes of an action that was run
  settle :
      (r : Result A) (handler : Error → Io S A) (s : S)
      → ((e : Error) → Preserves P (handler e))
      → P s
      → P (catch (λ (t : S). (r, t)) handler s).1
  settle (ok a) handler s kh h = h
  settle (throw e) handler s kh h = (kh e).run s h

  pub Preserves-catch :
      (m : Io S A) (handler : Error → Io S A)
      → Preserves P m
      → ((e : Error) → Preserves P (handler e))
      → Preserves P (catch m handler)
  Preserves-catch m handler km kh = record {
    run = λ s h. let (r, s') = m s in settle r handler s' kh (km.run s h);
  }

  pub Preserves-if :
      (b : Bool) (m n : Io S A) → Preserves P m → Preserves P n → Preserves P (if b then m else n)
  Preserves-if true m n km kn = km
  Preserves-if false m n km kn = kn

module _ {S A B : Type 0} {P : S → Type 0} where
  continue :
      (r : Result A) (f : A → Io S B) (s : S)
      → ((a : A) → Preserves P (f a))
      → P s
      → P (◌>>=◌ (λ (t : S). (r, t)) f s).1
  continue (ok a) f s kf h = (kf a).run s h
  continue (throw e) f s kf h = h

  pub Preserves-bind :
      (m : Io S A) (f : A → Io S B)
      → Preserves P m
      → ((a : A) → Preserves P (f a))
      → Preserves P (m >>= f)
  Preserves-bind m f km kf = record {
    run = λ s h. let (r, s') = m s in continue r f s' kf (km.run s h);
  }

pub ruleset preserve_rules =
    (Preserves-pure, Preserves-raise, Preserves-catch, Preserves-if, Preserves-bind)
