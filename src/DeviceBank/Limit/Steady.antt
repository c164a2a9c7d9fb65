-- ===== src/DeviceBank/Limit/Steady.antt =====
-- Edits turn no device on.
use homebrew_tools.Prelude.{◌≤◌, true, ◌≡◌, refl, ◌∙◌, arith, All, All-get, All-set, count-set}
use homebrew_tools.DeviceBank.Types.{may_be_on, State}
use homebrew_tools.DeviceBank.State.{powered_on_count, put_device, put_lease}
use homebrew_tools.DeviceBank.Lease.{touch_session, remove_lease}
use homebrew_tools.DeviceBank.Edits.Basic.{
  is_modern, Edits, unchanged, writes_device, writes_lease, removes_lease, renews, other,
}

-- States of today's versions only.
abbrev pub Modern : State → Type 0
Modern s = All (λ d. is_modern d.state ≡ true) s.devices

-- The second state counts no more devices on than the first, under the same configuration.
pub record Steady (s t : State) : Type 0 where
  pub modern : Modern s → Modern t
  pub fewer : Modern s → powered_on_count t ≤ powered_on_count s
  pub config : t.config ≡ s.config

Steady-then :
    {s : State} (t u : State)
    → Steady s t
    → u.devices ≡ t.devices
    → u.config ≡ t.config
    → Steady s u
unfolding powered_on_count
Steady-then t u h d c = record {
  modern = λ m. rw d (h.modern m);
  fewer = λ m. rw d (h.fewer m);
  config = c ∙ h.config;
}

pub Edits-Steady : {s t : State} → Edits s t → Steady s t
unfolding put_device put_lease remove_lease touch_session powered_on_count
Edits-Steady unchanged = record { modern = λ m. m; fewer = λ m. omega arith; config = refl }
Edits-Steady {s} (writes_device {t} i d d' h e q) =
    let k = Edits-Steady h in
    record {
      modern = λ m.
          All-set (λ x. is_modern x.state ≡ true) t.devices i d' (k.modern m)
            (q.modern (was (k.modern m)));
      fewer = λ m.
          omega
            (arith, k.fewer m, count-set may_be_on t.devices i d' e, q.fewer (was (k.modern m)));
      config = k.config;
    }
  where
    was : Modern t → is_modern d.state ≡ true
    was m = All-get (λ x. is_modern x.state ≡ true) t.devices i m e
Edits-Steady (writes_lease {t} j l l' h e p) = Steady-then t _ (Edits-Steady h) refl refl
Edits-Steady (removes_lease {t} j h) = Steady-then t _ (Edits-Steady h) refl refl
Edits-Steady (renews {t} session now h) = Steady-then t _ (Edits-Steady h) refl refl
Edits-Steady (other {t} u h d l c) = Steady-then t u (Edits-Steady h) d c
