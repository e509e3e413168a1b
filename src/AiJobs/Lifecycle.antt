-- ===== src/AiJobs/Lifecycle.antt =====
-- Walks through the job statuses, by the transitions that `require_transition` accepts.
use mathlib.Core.Path.{subst}
use lawyer_agent.Prelude.{◌≡◌, refl, ◌≢◌, ◌⊎◌, inl, inr, true, arith, ok}
use lawyer_agent.AiJobs.Status.{AiJobStatus, require_transition, terminal_job_statuses, status_in}

pub data Walk (s : AiJobStatus) : AiJobStatus → Type 0 where
  here : Walk s s
  next : {t u : AiJobStatus} → Walk s t → require_transition t u ≡ ok tt → Walk s u

terminal_step :
    (s u : AiJobStatus) → status_in s terminal_job_statuses ≡ true → require_transition s u ≢ ok tt
unfolding require_transition
terminal_step s u h e = ground arith

-- A terminal status is left by no transition.
terminal-Walk : {s t : AiJobStatus} → status_in s terminal_job_statuses ≡ true → Walk s t → t ≡ s
terminal-Walk h here = refl
terminal-Walk {s} h (next {t = t} {u = u} w e) =
    absurd (terminal_step s u h (rw (terminal-Walk h w) at e))

into_succeeded :
    (t : AiJobStatus) → require_transition t AiJobStatus.succeeded ≡ ok tt → t ≡ AiJobStatus.running
unfolding require_transition
into_succeeded t e = ground arith

after_cancel_requested :
    (t u : AiJobStatus)
    → (t ≡ AiJobStatus.cancel_requested) ⊎ (t ≡ AiJobStatus.cancelled)
    → require_transition t u ≡ ok tt
    → u ≡ AiJobStatus.cancelled
unfolding require_transition
after_cancel_requested t u h e = ground arith

cancel_requested-Walk :
    {t : AiJobStatus}
    → Walk AiJobStatus.cancel_requested t
    → (t ≡ AiJobStatus.cancel_requested) ⊎ (t ≡ AiJobStatus.cancelled)
cancel_requested-Walk here = inl refl
cancel_requested-Walk (next {t = t} {u = u} w e) =
    inr (after_cancel_requested t u (cancel_requested-Walk w) e)

success-Walk :
    {s t : AiJobStatus}
    → Walk s t
    → t ≡ AiJobStatus.succeeded
    → s ≢ AiJobStatus.succeeded
    → Walk s AiJobStatus.running
success-Walk here e ne = absurd (ne e)
success-Walk (next {t = t} {u = u} w a) e ne =
    subst (Walk _) (into_succeeded t (subst (λ v. require_transition t v ≡ ok tt) e a)) w

-- What a walk says of the statuses at its ends.
pub record IsGuided (s t : AiJobStatus) : Type 0 where
  pub terminal_stays : status_in s terminal_job_statuses ≡ true → t ≡ s
  pub success_ran :
      t ≡ AiJobStatus.succeeded → s ≢ AiJobStatus.succeeded → Walk s AiJobStatus.running
  pub cancel_sticks :
      s ≡ AiJobStatus.cancel_requested
      → (t ≡ AiJobStatus.cancel_requested) ⊎ (t ≡ AiJobStatus.cancelled)

-- Along any chain of accepted transitions: a job in a terminal status stays there, a job succeeds
-- only after it has been running, and one whose cancellation was requested can only be cancelled.
pub Walk-IsGuided : (s t : AiJobStatus) → Walk s t → IsGuided s t
Walk-IsGuided s t w = record {
  terminal_stays = λ h. terminal-Walk h w;
  success_ran = λ e ne. success-Walk w e ne;
  cancel_sticks = λ e. cancel_requested-Walk (subst (λ v. Walk v t) e w);
}
