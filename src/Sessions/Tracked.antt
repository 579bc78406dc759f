-- ===== src/Sessions/Tracked.antt =====
-- security/sessions.py: an index that names a token long enough, and what each operation does to it.
use seskit.Base.{
  ℕ, ◌+◌, ◌≤◌, ◌<◌, leb, ◌==◌, ==_iff, String, str_eq, eq_iff, eq_refl, Bool, true, false, ◌&&◌,
  ◌||◌, not, Option, none, some, List, [], ◌∷◌, if◌then◌else◌, is_some, any, ◌≡◌, refl, arith, inl,
  inr, Bool-cases,
}
use seskit.Redis.{Held, Slot, Store, live, get, value_of, write, expire}
use seskit.Sessions.{
  Hash, Sessions, holds, add_member, remove_member, kept_members, srem, create_session,
  with_project, forget, owner_of, delete_session, members, delete_user_sessions,
}
use seskit.Sessions.Deleting.{
  holds-add_member, holds-remove_member, sessions-delete_user_sessions,
  user_sessions-delete_user_sessions,
}
use seskit.Sessions.Acts.{kept_or}

-- The index slot names the token at least until `t`.
unfoldable pub tracks : (until : ℕ) → String → Slot (List String) → Bool
tracks until token none = false
tracks until token (some held) =
    (elim held.expires_at [ none ↦ true | some e ↦ leb until e ]) && holds token held.value

-- A token is tracked for its user, or its session, if there is one, names no user.
unfoldable pub IsTracked : (until : ℕ) → String → (user : ℕ) → Sessions → Type 0
IsTracked until token user store =
    (tracks until token (store.user_sessions user)
      || not (is_some (owner_of (value_of (store.sessions token)))))
    ≡ true

module _ (until ttl now : ℕ) (token : String) (early : now < until) where
  pub tracks-add :
      (other : String) (slot : Slot (List String))
      → until ≤ now + ttl
      → tracks until token slot ≡ true
      → tracks until token (expire now ttl (write now (add_member other) slot)) ≡ true
  unfolding tracks
  tracks-add other none late h = absurd (cc)
  tracks-add other (some held) late h = ground (arith, h, holds-add_member token other held.value)

  pub tracks-kept_members :
      (expires_at : Option ℕ) (tokens : List String)
      → tracks until token (some (record { value = tokens; expires_at = expires_at })) ≡ true
      → tracks until token (kept_members expires_at tokens) ≡ true
  unfolding tracks kept_members any
  tracks-kept_members expires_at [] h = ground (arith, h)
  tracks-kept_members expires_at (t ∷ tokens) h = h

  pub tracks-remove :
      (other : String) (expires_at : Option ℕ) (tokens : List String)
      → str_eq other token ≡ false
      → tracks until token (some (record { value = tokens; expires_at = expires_at })) ≡ true
      → tracks until token
          (some (record { value = remove_member other tokens; expires_at = expires_at }))
        ≡ true
  unfolding tracks
  tracks-remove other expires_at tokens differs h =
      rw (holds-remove_member token other tokens differs) h

  pub live_tracked :
      (held : Held (List String))
      → tracks until token (some held) ≡ true
      → live now (some held) ≡ some held
  unfolding tracks
  live_tracked held h = ground (arith, h)

  pub tracks-srem :
      (other : String) (slot : Slot (List String))
      → str_eq other token ≡ false
      → tracks until token slot ≡ true
      → tracks until token (srem now other slot) ≡ true
  unfolding srem
  tracks-srem other none differs h = absurd (unfold tracks in cc)
  tracks-srem other (some held) differs h = rw (live_tracked held h) (
      tracks-kept_members held.expires_at (remove_member other held.value)
        (tracks-remove other held.expires_at held.value differs h))

  -- A session that names no user is not made usable.
  abbrev usable : Slot Hash → Bool
  usable slot = is_some (owner_of (value_of slot))

  pub usable-expire :
      (slot : Slot Hash) → usable slot ≡ false → usable (expire now ttl slot) ≡ false
  unfolding owner_of
  usable-expire none h = refl
  usable-expire (some held) h = ground (arith, h)

  pub usable-switch :
      (project : ℕ) (slot : Slot Hash)
      → usable slot ≡ false
      → usable (expire now ttl (write now (with_project project) slot)) ≡ false
  unfolding owner_of
  usable-switch project none h = ground arith
  usable-switch project (some held) h = ground (arith, h)

  -- A slot that is replaced or kept is tracked if both are.
  pub tracks-choice :
      (b : Bool) (x y : Slot (List String))
      → tracks until token x ≡ true
      → tracks until token y ≡ true
      → tracks until token (if b then x else y) ≡ true
  tracks-choice true x y hx hy = hx
  tracks-choice false x y hx hy = hy

  pub either_way :
      (user : ℕ) (store after : Sessions)
      → (tracks until token (store.user_sessions user) ≡ true → IsTracked until token user after)
      → (usable (store.sessions token) ≡ false → IsTracked until token user after)
      → IsTracked until token user store
      → IsTracked until token user after
  either_way user store after tracked unusable h =
      elim (Bool-cases (tracks until token (store.user_sessions user))) [
        | inl t ↦ tracked t
        | inr f ↦ unusable (unfold IsTracked in ground (arith, h, f))
      ]

  pub by_index :
      (user : ℕ) (after : Sessions)
      → tracks until token (after.user_sessions user) ≡ true
      → IsTracked until token user after
  unfolding IsTracked
  by_index user after t = ground (arith, t)

  pub by_session :
      (user : ℕ) (after : Sessions)
      → usable (after.sessions token) ≡ false
      → IsTracked until token user after
  unfolding IsTracked
  by_session user after f = ground (arith, f)

  pub sign_in-IsTracked :
      (user owner : ℕ) (other csrf created : String) (store : Sessions)
      → until ≤ now + ttl
      → str_eq other token ≡ false
      → IsTracked until token user store
      → IsTracked until token user (create_session now other csrf created owner ttl store).0
  unfolding create_session
  sign_in-IsTracked user owner other csrf created store late differs =
      either_way user store (create_session now other csrf created owner ttl store).0
        (λ t. by_index user (create_session now other csrf created owner ttl store).0 (
          tracks-choice (owner == user)
            (expire now ttl (write now (add_member other) (store.user_sessions user)))
            (store.user_sessions user) (tracks-add other (store.user_sessions user) late t) t))
        (λ f.
          by_session user (create_session now other csrf created owner ttl store).0 (rw differs f))

  pub tracks-forget :
      (user : ℕ) (other : String) (owner : Option ℕ) (indexes : Store ℕ (List String))
      → str_eq other token ≡ false
      → tracks until token (indexes user) ≡ true
      → tracks until token (forget now other owner indexes user) ≡ true
  unfolding forget
  tracks-forget user other none indexes differs t = t
  tracks-forget user other (some owner) indexes differs t =
      tracks-choice (owner == user) (srem now other (indexes user)) (indexes user)
        (tracks-srem other (indexes user) differs t) t

  pub user_sessions-delete_session :
      (user : ℕ) (other : String) (store : Sessions)
      → str_eq other token ≡ false
      → tracks until token (store.user_sessions user) ≡ true
      → tracks until token ((kept_or store (delete_session now other store)).user_sessions user)
        ≡ true
  unfolding delete_session
  user_sessions-delete_session user other store differs t = ground (
    arith,
    t,
    tracks-forget user other (owner_of (get now (store.sessions other))) store.user_sessions differs
        t,
  )

  pub usable-delete_session :
      (other : String) (store : Sessions)
      → usable (store.sessions token) ≡ false
      → usable ((kept_or store (delete_session now other store)).sessions token) ≡ false
  unfolding delete_session owner_of
  usable-delete_session other store f = ground (arith, f)

  -- The token's own session is deleted, or nothing changes.
  pub own_sign_out :
      (user : ℕ) (store : Sessions)
      → tracks until token (store.user_sessions user) ≡ true
      → IsTracked until token user (kept_or store (delete_session now token store))
  unfolding delete_session IsTracked
  own_sign_out user store t = ground (arith, t, eq_refl token)

  pub sign_out-IsTracked :
      (user : ℕ) (other : String) (store : Sessions)
      → IsTracked until token user store
      → IsTracked until token user (kept_or store (delete_session now other store))
  sign_out-IsTracked user other store =
      either_way user store (kept_or store (delete_session now other store))
        (λ t. elim (Bool-cases (str_eq other token)) [
          | inl same ↦ rw ((eq_iff other token).0 same) (own_sign_out user store t)
          | inr differs ↦
              by_index user (kept_or store (delete_session now other store))
                (user_sessions-delete_session user other store differs t)
        ])
        (λ f.
          by_session user (kept_or store (delete_session now other store))
            (usable-delete_session other store f))

  -- A live index that tracks a token names it.
  pub holds-members :
      (slot : Slot (List String))
      → tracks until token slot ≡ true
      → holds token (members (get now slot)) ≡ true
  unfolding tracks members
  holds-members slot t = ground (arith, t)

  pub sessions-end_all :
      (user : ℕ) (store : Sessions)
      → tracks until token (store.user_sessions user) ≡ true
      → (delete_user_sessions now user store).0.sessions token ≡ none
  sessions-end_all user store t =
      rw
        (
          sessions-delete_user_sessions now user store token,
          holds-members (store.user_sessions user) t,
        )
        refl

  pub usable-end_all :
      (owner : ℕ) (store : Sessions)
      → usable (store.sessions token) ≡ false
      → usable ((delete_user_sessions now owner store).0.sessions token) ≡ false
  unfolding owner_of
  usable-end_all owner store f =
      ground (arith, f, sessions-delete_user_sessions now owner store token)

  pub end_all-IsTracked :
      (user owner : ℕ) (store : Sessions)
      → IsTracked until token user store
      → IsTracked until token user (delete_user_sessions now owner store).0
  end_all-IsTracked user owner store =
      either_way user store (delete_user_sessions now owner store).0
        (λ t. elim (Bool-cases (owner == user)) [
          | inl same ↦ by_session user (delete_user_sessions now owner store).0 (
              unfold owner_of in
              ground (arith, sessions-end_all user store t, (==_iff owner user).0 same))
          | inr other ↦
              by_index user (delete_user_sessions now owner store).0
                (rw (user_sessions-delete_user_sessions now owner store user other) t)
        ])
        (λ f.
          by_session user (delete_user_sessions now owner store).0 (usable-end_all owner store f))
