-- ===== src/Bench/Restore.antt =====
-- `restore_epp` and the `finally` of `go` in scripts/bench.py: what a session leaves in the EPP files.
use fake_big_little.Prelude.{
  ℕ, ◌<◌, ◌≡◌, refl, inl, inr, true, ◌&&◌, List, [], ◌∷◌, arith, ◌==◌, if◌then◌else◌, Bool-cases,
  range, mem, mem-range_from,
}
use mathlib.Core.Path.{subst}
use fake_big_little.Prelude.Texts.{Text}
use fake_big_little.Bench.World.{Env, World, Io, Result, ok, err, pure, ◌>>◌, finally, swallow, ask}
use fake_big_little.Bench.Rules.{
  Keeps, IsPassive, keep_rules, bind-Keeps, ask-Keeps, if-Keeps, pure-Keeps,
}
use fake_big_little.Bench.Epp.{read_all, read_epp_all, write_epp, restore_epp}
use fake_big_little.Bench.Cooling.Effects.{measure_idle_floor-Keeps}
use fake_big_little.Bench.Session.{Bench}
use fake_big_little.Bench.Session.Effects.{run-Keeps}
use fake_big_little.Bench.Ab.{AbArm}
use fake_big_little.Bench.Driver.{Host, experiments, warmup, session, go}

module _ (env : Env) (epp : ℕ → Text) where
  write_back-eq :
      (c k : ℕ) (w : World)
      → (write_epp env k (epp k) w).1.epp c
        ≡ (if env.accepts w.asked k (epp k) && c == k then epp k else w.epp c)
  unfolding write_epp
  write_back-eq c k w = ground arith

  write_back-Stays :
      (c k : ℕ) (w : World) → w.epp c ≡ epp c → (write_epp env k (epp k) w).1.epp c ≡ epp c
  write_back-Stays c k w h = elim (Bool-cases (c == k)) [
    | inl e ↦ let same : k ≡ c = ground arith in rw (write_back-eq c k w) (rw same (ground arith))
    | inr e ↦ rw (write_back-eq c k w) (ground arith)
  ]

  write_back_accepted :
      (c k : ℕ) (w : World)
      → c ≡ k
      → env.accepts w.asked c (epp c) ≡ true
      → (write_epp env k (epp k) w).1.epp c ≡ epp c
  write_back_accepted c k w same h = rw (write_back-eq c k w) (
      subst
        (λ (j : ℕ). (if env.accepts w.asked j (epp j) && c == j then epp j else w.epp c) ≡ epp c)
        same (ground arith))

  -- Writing values back keeps those that are back.
  restore_epp-Stays :
      (c : ℕ) (cs : List ℕ) (w : World)
      → w.epp c ≡ epp c
      → (restore_epp env (read_all epp cs) w).1.epp c ≡ epp c
  unfolding restore_epp pure ◌>>◌ swallow
  restore_epp-Stays c [] w h = h
  restore_epp-Stays c (k ∷ cs) w h = restore_epp-Stays c cs _ (write_back-Stays c k w h)

  restore_epp_back :
      (c : ℕ) (cs : List ℕ) (w : World)
      → ((n : ℕ) → env.accepts n c (epp c) ≡ true)
      → mem c cs ≡ true
      → (restore_epp env (read_all epp cs) w).1.epp c ≡ epp c
  unfolding restore_epp pure ◌>>◌ swallow
  restore_epp_back c [] w h m = cc
  restore_epp_back c (k ∷ cs) w h m = elim (Bool-cases (c == k)) [
    | inl e ↦ restore_epp-Stays c cs _ (write_back_accepted c k w (ground arith) (h w.asked))
    | inr e ↦ restore_epp_back c cs _ h (ground arith)
  ]

module _ (cpu : ℕ) (value : Text) where
  -- A CPU that has the value still has it.
  pub Stays : World → World → Type 0
  Stays w w' = w.epp cpu ≡ value → w'.epp cpu ≡ value

  Stays-IsPassive : IsPassive Stays
  unfolding Stays
  Stays-IsPassive = record { trans = λ u v w h k e. k (h e); passes = λ w t n h. h }

  module _ (env : Env) where
    warmup-Stays : Keeps Stays (warmup env)
    unfolding warmup
    warmup-Stays = search (keep_rules, Stays-IsPassive, run-Keeps)

    -- Whatever the body of `try` does, and however it ends.
    finally-Stays :
        {A : Type 0} (body : Io A) (k : Io (Unit {0}))
        → ((w : World) → (k w).1.epp cpu ≡ value)
        → Keeps Stays (finally body k)
    unfolding finally Stays
    finally-Stays {A = A} body k h = record {
      keeps = λ w e. finally_end (body w).0 (k (body w).1) (h (body w).1);
    }
      where
        finally_end :
            (r : Result A) (q : Result (Unit {0}) × World)
            → q.1.epp cpu ≡ value
            → (elim q.0 as (λ _. Result A × World) [ ok _ ↦ (r, q.1) | err e ↦ (err e, q.1) ]).1.epp
                cpu
              ≡ value
        finally_end r (ok _, w) e = e
        finally_end r (err _, w) e = e

    session-Stays :
        (shuffled : ℕ → List AbArm) (self : Bench)
        → ((w : World) → (restore_epp env self.saved_epp w).1.epp cpu ≡ value)
        → Keeps Stays (session env shuffled self)
    unfolding session
    session-Stays shuffled self h =
        search
          (
            keep_rules,
            Stays-IsPassive,
            measure_idle_floor-Keeps,
            warmup-Stays,
            λ (s : Bench).
                finally-Stays (experiments env shuffled s) (restore_epp env self.saved_epp) h,
          )
          depth 9

    go-Stays :
        (host : Host) (shuffled : ℕ → List AbArm) (self : Bench)
        → ((w : World) → (restore_epp env self.saved_epp w).1.epp cpu ≡ value)
        → Keeps Stays (go env host shuffled self)
    unfolding go
    go-Stays host shuffled self h =
        bind-Keeps Stays Stays-IsPassive (ask env.scx_state) _
          (ask-Keeps Stays Stays-IsPassive env.scx_state)
          (λ state.
            if-Keeps Stays Stays-IsPassive _ _ _ (pure-Keeps Stays Stays-IsPassive 1)
              (session-Stays shuffled self h))

-- However a session ends, by its exit status, refused by the preflight, or by an exception of any
-- step of any experiment, each CPU that takes its old EPP name back has it again at the end.
pub go_restores_epp :
    (env : Env) (host : Host) (shuffled : ℕ → List AbArm) (self : Bench) (w : World) (cpu : ℕ)
    → self.saved_epp ≡ read_epp_all env w
    → cpu < env.nr_cpus
    → ((n : ℕ) → env.accepts n cpu (w.epp cpu) ≡ true)
    → (go env host shuffled self w).1.epp cpu ≡ w.epp cpu
go_restores_epp env host shuffled self w cpu e lt accepts =
    unfold read_epp_all Stays in
    (go-Stays cpu (w.epp cpu) env host shuffled self (λ w'. rw e (
        restore_epp_back env w.epp cpu (range env.nr_cpus) w' accepts
          (rw mem-range_from (ground arith))))).keeps
      w refl
