-- ===== src/Tailscale/Laws.antt =====
-- Who passes, and how two sources of logins combine.
use rshs.Common.{
  Bool-cases, Bytes, Option-cases, arith, bytes_key, codes, inl, inr, refl, some, true, ◌&&◌, ◌||◌,
  ◌↔◌, ◌≡◌, ◌⊎◌,
}
use rshs.FilePath.{path_key}
use rshs.Http.{HeaderMap, header_text, ok}
use rshs.Map.{nat_key}
use rshs.Map.Laws.{has-extend}
use rshs.Tailscale.{
  TailscaleAuthState, allow_all, allow_list, disabled, is_disabled, merge, permits,
  tailscale_auth_middleware,
}

-- A merged state permits a login exactly if one of the two does, and it is disabled only if both are.
pub merge-permits :
    (a b : TailscaleAuthState) (login : Bytes)
    → (permits (merge a b) login ≡ (permits a login || permits b login))
      × (is_disabled (merge a b) ≡ (is_disabled a && is_disabled b))
unfolding merge permits is_disabled
merge-permits allow_all b login = (refl, refl)
merge-permits disabled b login = (refl, refl)
merge-permits (allow_list a) allow_all login = (ground (arith), refl)
merge-permits (allow_list a) disabled login = (ground (arith), refl)
merge-permits (allow_list a) (allow_list b) login = (has-extend a b login, refl)

-- A request passes exactly if no list is configured, or its identity header names a permitted login.
pub tailscale_auth_middleware_iff :
    (s : TailscaleAuthState) (headers : HeaderMap)
    → (tailscale_auth_middleware s headers ≡ ok tt) ↔ (
        (is_disabled s ≡ true)
        ⊎ ((login : Bytes) × (header_text headers (codes "tailscale-user-login") ≡ some login)
            × (permits s login ≡ true)))
unfolding tailscale_auth_middleware
tailscale_auth_middleware_iff s headers = elim (Bool-cases (is_disabled s)) [
  | inl off ↦ (λ h. inl off, λ h. rw (off, tailscale_auth_middleware) refl)
  | inr on ↦ elim (Option-cases (header_text headers (codes "tailscale-user-login"))) [
    | inl missing ↦ (
      λ h. ground (arith),
      λ h. elim h [ inl off ↦ ground (arith) | inr (login, given, good) ↦ ground (arith) ],
    )
    | inr (login, given) ↦ (
      λ h. inr (login, given, ground (arith)),
      λ h. elim h [ inl off ↦ ground (arith) | inr (other, named, good) ↦ ground (arith) ],
    )
  ]
]
