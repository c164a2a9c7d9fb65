-- ===== src/DeviceBank/Ending.antt =====
-- internal/atelierd/devicebank/lease.go: which leases and waiters a release and a reap leave.
use homebrew_tools.Prelude.{
  ℕ, suc, ◌-◌, ltb, String, Bool, not, Option, List, [], ◌∷◌, ◌++◌, length, length-append, keep,
  remove_at, remove_at-length, append_assoc, ◌≡◌, refl, sym, ap, ◌∙◌, inl, inr, arith, Bool-cases,
}
use homebrew_tools.DeviceBank.Types.{Platform, Lease, State, ttl}
use homebrew_tools.DeviceBank.Queue.{waits_as, remove_waiters}
use homebrew_tools.DeviceBank.Lease.{
  drop_lease, drop_where, released_by, release_session, expired_at, reap_expired, recycle_device,
  remove_lease, send_to_recycling, add_restore,
}
use homebrew_tools.DeviceBank.State.{spawn_restore, spawn_recycle, put_device, journal}
use homebrew_tools.DeviceBank.Exclusive.New.{drop_lease-leases}

drop_where-leases :
    (p : Lease → Bool) (now : ℕ) (reason : String) (pre ls : List Lease) (s : State)
    → s.leases ≡ pre ++ ls
    → (drop_where p now reason ls (length pre) s).0.leases ≡ pre ++ keep (λ l. not (p l)) ls
unfolding drop_where
drop_where-leases p now reason pre [] s h = h
drop_where-leases p now reason pre (l ∷ ls) s h = elim (Bool-cases (p l)) [
  | inl e ↦
      rw (e, drop_where)
        (drop_where-leases p now reason pre ls (drop_lease (length pre) l now reason s) (
          drop_lease-leases (length pre) l now reason s
          ∙ (ap (λ xs. remove_at xs (length pre)) h ∙ remove_at-length pre l ls)))
  | inr e ↦
      let grown : List Lease = pre ++ (l ∷ []) in
      let next : length grown ≡ suc (length pre) = length-append pre (l ∷ []) ∙ omega arith in
      let rest : (drop_where p now reason ls (length grown) s).0.leases
          ≡ grown ++ keep (λ x. not (p x)) ls =
        drop_where-leases p now reason grown ls s (h ∙ sym (append_assoc pre (l ∷ []) ls)) in
      rw (e, drop_where)
        (ap (λ j. (drop_where p now reason ls j s).0.leases) (sym next)
          ∙ (rest ∙ append_assoc pre (l ∷ []) (keep (λ x. not (p x)) ls)))
]

drop_lease-queue :
    (j : ℕ) (l : Lease) (now : ℕ) (reason : String) (s : State)
    → (drop_lease j l now reason s).queue ≡ s.queue
unfolding drop_lease recycle_device send_to_recycling spawn_restore add_restore remove_lease
    spawn_recycle journal put_device
drop_lease-queue j l now reason s = ground arith

drop_where-queue :
    (p : Lease → Bool) (now : ℕ) (reason : String) (ls : List Lease) (j : ℕ) (s : State)
    → (drop_where p now reason ls j s).0.queue ≡ s.queue
unfolding drop_where
drop_where-queue p now reason [] j s = refl
drop_where-queue p now reason (l ∷ ls) j s = elim (Bool-cases (p l)) [
  | inl e ↦
      rw (e, drop_where)
        (drop_where-queue p now reason ls j (drop_lease j l now reason s)
          ∙ drop_lease-queue j l now reason s)
  | inr e ↦ rw (e, drop_where) (drop_where-queue p now reason ls (suc j) s)
]

-- A release leaves exactly the leases and the waiters, in order, that are not the session's on the
-- platform, or on any platform where none is given.
pub release_session_lem :
    (s : State) (session : String) (platform : Option Platform) (now : ℕ) (reason : String)
    → let after = (release_session s session platform now reason).0 in
      (after.leases ≡ keep (λ l. not (released_by session platform l)) s.leases)
      × (after.queue ≡ keep (λ w. not (waits_as session platform w)) s.queue)
unfolding release_session remove_waiters
release_session_lem s session platform now reason = (
  drop_where-leases (released_by session platform) now reason [] s.leases s refl,
  ap (keep (λ w. not (waits_as session platform w)))
      (drop_where-queue (released_by session platform) now reason s.leases 0 s),
)

-- The reap of the expired leases leaves exactly, and in order, those renewed within the last hour, and
-- all the waiters.
pub reap_expired_lem :
    (s : State) (now : ℕ)
    → let after = (reap_expired s now).0 in
      (after.leases ≡ keep (λ l. not (ltb ttl (now - l.renewed_at))) s.leases)
      × (after.queue ≡ s.queue)
unfolding reap_expired
reap_expired_lem s now = (
  drop_where-leases (expired_at now) now "ttl" [] s.leases s refl,
  drop_where-queue (expired_at now) now "ttl" s.leases 0 s,
)
