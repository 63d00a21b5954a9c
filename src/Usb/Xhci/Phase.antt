-- ===== src/Usb/Xhci/Phase.antt =====
-- The phases of the ports (Kernel/usb/xhci/xhci.cpp) when one of them changes.
use mikanos_copy.Common.{
  ℕ, suc, ◌≤◌, ◌≡◌, ◌≢◌, refl, sym, ap, ◌∙◌, subst, fun_ext, ◌==◌, if◌then◌else◌, ==-refl, arith,
  ℕ_discrete, ◌⊎◌, inl, inr,
}
use mikanos_copy.Usb.Xhci.{ConfigPhase, waiting_addressed, resetting_port, code}

-- A port changes to the next phase, or from not being connected to being reset.
abbrev pub Next : ConfigPhase → ConfigPhase → Type 0
Next a b = (code a ≡ code b) ⊎ (code b ≡ suc (code a)) ⊎ ((code a ≡ 0) × (code b ≡ 2))

-- From the reset of a port until it has its address.
abbrev pub IsBusy : ConfigPhase → Type 0
IsBusy phase = (2 ≤ code phase) × (code phase ≤ 4)

-- Only the port that is addressed is between its reset and its address, and it is there; 0 is no
-- port.
pub record Addressed (phase : ℕ → ConfigPhase) (addressing : ℕ) : Type 0 where
  pub only : (p : ℕ) → IsBusy (phase p) → p ≡ addressing
  pub held : addressing ≢ 0 → IsBusy (phase addressing)
  pub no_port : code (phase 0) ≡ 0

abbrev pub with_phase : (ℕ → ConfigPhase) → ℕ → ConfigPhase → ℕ → ConfigPhase
with_phase f p phase r = if r == p then phase else f r

pub update_at : (f : ℕ → ConfigPhase) (p : ℕ) (phase : ConfigPhase) → with_phase f p phase p ≡ phase
update_at f p phase = rw (==-refl p) refl

pub update_off :
    (f : ℕ → ConfigPhase) (p r : ℕ) (phase : ConfigPhase) → r ≢ p → with_phase f p phase r ≡ f r
update_off f p r phase h = ground (arith, h)

-- The changes of one port.
module _ (f : ℕ → ConfigPhase) (p : ℕ) (phase : ConfigPhase) (port : p ≢ 0) where
  no_port_update : code (f 0) ≡ 0 → code (with_phase f p phase 0) ≡ 0
  no_port_update h = ap code (update_off f p 0 phase (λ e. port (sym e))) ∙ h

  pub enter : Addressed f 0 → IsBusy phase → Addressed (with_phase f p phase) p
  enter a busy = record {
    only = λ r h. elim (ℕ_discrete r p) [
      | yes e ↦ e
      | no apart ↦
          let none_busy = a.only r (subst IsBusy (update_off f p r phase apart) h) in
          absurd (
            omega (
              arith,
              ap (λ n. code (f n)) none_busy,
              a.no_port,
              subst IsBusy (update_off f p r phase apart) h,
            ))
    ];
    held = λ h. subst IsBusy (sym (update_at f p phase)) busy;
    no_port = no_port_update a.no_port;
  }

  pub within : Addressed f p → IsBusy phase → Addressed (with_phase f p phase) p
  within a busy = record {
    only = λ r h. elim (ℕ_discrete r p) [
      | yes e ↦ e
      | no apart ↦ a.only r (subst IsBusy (update_off f p r phase apart) h)
    ];
    held = λ h. subst IsBusy (sym (update_at f p phase)) busy;
    no_port = no_port_update a.no_port;
  }

  idle_only :
      {a : ℕ}
      → Addressed f a
      → ¬ IsBusy phase
      → (r : ℕ) → IsBusy (with_phase f p phase r)
      → (r ≢ p) × (r ≡ a)
  idle_only a idle r h = elim (ℕ_discrete r p) [
    | yes e ↦ absurd (idle (subst IsBusy (ap (with_phase f p phase) e ∙ update_at f p phase) h))
    | no apart ↦ (apart, a.only r (subst IsBusy (update_off f p r phase apart) h))
  ]

  pub beside : {a : ℕ} → Addressed f a → p ≢ a → ¬ IsBusy phase → Addressed (with_phase f p phase) a
  beside {a = port_a} a apart idle = record {
    only = λ r h. (idle_only a idle r h).1;
    held = λ h. subst IsBusy (sym (update_off f p port_a phase (λ e. apart (sym e)))) (a.held h);
    no_port = no_port_update a.no_port;
  }

  pub leave : Addressed f p → ¬ IsBusy phase → Addressed (with_phase f p phase) 0
  leave a idle = record {
    only = λ r h. let (off, on) = idle_only a idle r h in absurd (off on);
    held = λ h. absurd (h refl);
    no_port = no_port_update a.no_port;
  }

  -- Of the phases, only that of the port changes.
  pub with_phase-Next : Next (f p) phase → (r : ℕ) → Next (f r) (with_phase f p phase r)
  with_phase-Next next r = elim (ℕ_discrete r p) [
    | yes e ↦
        subst (λ n. Next (f n) (with_phase f p phase n)) (sym e)
          (subst (Next (f p)) (sym (update_at f p phase)) next)
    | no apart ↦ inl (ap code (sym (update_off f p r phase apart)))
  ]

-- The changes of two ports in either order.
pub update_twice :
    (f : ℕ → ConfigPhase) (p q : ℕ) (a b : ConfigPhase)
    → p ≢ q
    → with_phase (with_phase f p a) q b ≡ with_phase (with_phase f q b) p a
update_twice f p q a b apart = fun_ext (λ r. ground (arith, apart))

pub to_waiting : (a : ConfigPhase) → code a ≤ 1 → Next a waiting_addressed
to_waiting a h = elim (ℕ_discrete (code a) 1) [
  | yes e ↦ inl e
  | no apart ↦ inr (inl (omega (arith, h, apart)))
]

pub to_resetting : (a : ConfigPhase) → code a ≤ 1 → Next a resetting_port
to_resetting a h = elim (ℕ_discrete (code a) 1) [
  | yes e ↦ inr (inl (omega (arith, e)))
  | no apart ↦ inr (inr (omega (arith, h, apart), refl))
]

pub Next-step : (a b : ConfigPhase) → code b ≡ suc (code a) → Next a b
Next-step a b h = inr (inl h)

-- Two ports change.
pub both-Next :
    (f : ℕ → ConfigPhase) (p q : ℕ) (a b : ConfigPhase)
    → p ≢ q
    → p ≢ 0
    → Next (f p) a
    → Next (f q) b
    → (r : ℕ) → Next (f r) (with_phase (with_phase f p a) q b r)
both-Next f p q a b apart port first second r = elim (ℕ_discrete r q) [
  | yes e ↦
      subst (λ n. Next (f n) (with_phase (with_phase f p a) q b n)) (sym e)
        (subst (Next (f q)) (sym (update_at (with_phase f p a) q b)) second)
  | no off ↦
      subst (Next (f r)) (sym (update_off (with_phase f p a) q r b off))
        (with_phase-Next f p a port first r)
]
