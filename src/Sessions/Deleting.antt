-- ===== src/Sessions/Deleting.antt =====
-- security/sessions.py: which keys the deletions remove and keep.
use seskit.Base.{
  ℕ, ◌==◌, String, str_eq, eq_iff, true, false, none, some, List, [], ◌∷◌, if◌then◌else◌, any,
  select, ◌≡◌, refl, arith,
}
use seskit.Redis.{Store, get, at}
use seskit.Sessions.{
  Hash, Sessions, holds, add_member, remove_member, delete_all, members, delete_tokens,
  delete_user_sessions,
}

pub delete_all_lem :
    (now : ℕ) (tokens : List String) (sessions : Store String Hash) (t : String)
    → (delete_all now tokens sessions).0 t ≡ (if holds t tokens then none else sessions t)
unfolding delete_all any
delete_all_lem now [] sessions t = refl
delete_all_lem now (token ∷ tokens) sessions t = ground (
  arith,
  delete_all_lem now tokens (at str_eq token (λ slot. none) sessions) t,
  eq_iff t token,
  eq_iff token t,
)

-- Every token that the live index names is gone, and every other session stays.
pub sessions-delete_user_sessions :
    (now user : ℕ) (store : Sessions) (t : String)
    → (delete_user_sessions now user store).0.sessions t
      ≡ (if holds t (members (get now (store.user_sessions user))) then none else store.sessions t)
unfolding delete_user_sessions
sessions-delete_user_sessions now user store t =
    by_members (members (get now (store.user_sessions user)))
  where
    by_members :
        (tokens : List String)
        → (delete_tokens now user tokens store).0.sessions t
          ≡ (if holds t tokens then none else store.sessions t)
    by_members [] = unfold delete_tokens any in refl
    by_members (token ∷ tokens) =
        unfold delete_tokens in delete_all_lem now (token ∷ tokens) store.sessions t

-- The indexes of other users stay.
pub user_sessions-delete_user_sessions :
    (now user : ℕ) (store : Sessions) (v : ℕ)
    → (user == v) ≡ false
    → (delete_user_sessions now user store).0.user_sessions v ≡ store.user_sessions v
unfolding delete_user_sessions
user_sessions-delete_user_sessions now user store v other =
    by_members (members (get now (store.user_sessions user)))
  where
    by_members :
        (tokens : List String)
        → (delete_tokens now user tokens store).0.user_sessions v ≡ store.user_sessions v
    by_members [] = unfold delete_tokens in refl
    by_members (token ∷ tokens) = unfold delete_tokens in ground (arith, other)

pub holds-add_member :
    (token other : String) (tokens : List String)
    → holds token tokens ≡ true
    → holds token (add_member other (some tokens)) ≡ true
unfolding add_member any
holds-add_member token other tokens h = ground arith

pub holds-remove_member :
    (token other : String) (tokens : List String)
    → str_eq other token ≡ false
    → holds token (remove_member other tokens) ≡ holds token tokens
unfolding remove_member any select
holds-remove_member token other [] h = refl
holds-remove_member token other (t ∷ tokens) h = ground (
  arith,
  holds-remove_member token other tokens h,
  eq_iff token t,
  eq_iff other t,
  eq_iff other token,
)
