-- ===== src/Firewall/Grants.antt =====
-- daemon/internal/firewall/service.go: the temporary grants, and `Initialize`.
use prism_panel.Common.{
  ℕ, ◌+◌, ◌*◌, Bool, true, false, ◌&&◌, ◌||◌, not, [], ◌∷◌, ◌++◌, Option, none, some, ltb,
  if◌then◌else◌, ◌==◌, nat_eq, text_eq, length,
}
use prism_panel.Common.Text.{Text, trim_space}
use prism_panel.Common.Dict.{Dict, lookup, insert}
use prism_panel.Common.Platform.{Platform, NetIp, Addr}
use prism_panel.Common.Error.{
  ok, err, firewall_drift, firewall_apply_failed, firewall_inspect_failed, invalid_source_ip,
  too_many_requests,
}
use prism_panel.Firewall.Types.{Grant, Service, max_temporary_grants}
use prism_panel.Firewall.Render.{state_active}
use prism_panel.Firewall.Service.{
  Answers, M, ◌>>=◌, ◌>>◌, get, require, attempt, prepare_backend, refresh_observed,
  apply_candidate,
}

-- `expireGrantsLocked`
unfoldable pub unexpired : ℕ → Dict Text Grant → Dict Text Grant
unexpired now [] = []
unexpired now ((key, g) ∷ more) =
    let rest = unexpired now more in if ltb now g.expires_at then (key, g) ∷ rest else rest

-- The grants of the other sessions.
unfoldable pub without_session : Text → Dict Text Grant → Dict Text Grant
without_session session [] = []
without_session session ((key, g) ∷ more) =
    let rest = without_session session more in
    if g.session_id == session then rest else (key, g) ∷ rest

unfoldable pub has_grant_for : Text → Dict Text Grant → Bool
has_grant_for source [] = false
has_grant_for source ((key, g) ∷ more) = g.source == source || has_grant_for source more

-- `removedSources`: the addresses of the session's grants, by their text.
unfoldable pub sources_of : NetIp → Text → Dict Text Grant → Dict Text Addr
sources_of net session [] = []
sources_of net session ((key, g) ∷ more) =
    let rest = sources_of net session more in
    if g.session_id == session
    then (elim (net.parse_addr g.source) [ none ↦ rest | some a ↦ insert g.source a rest ])
    else rest

unfoldable pub grant_key : Text → Text → Text → Text
grant_key source session_id ticket_id = source ++ (0 ∷ (session_id ++ (0 ∷ ticket_id)))

-- nanoseconds in a second
abbrev pub second : ℕ
second = 1_000_000_000

abbrev pub expire : ℕ → M (Unit {0})
expire now s = (record s { grants = unexpired now s.grants }, ok tt)

abbrev pub keep_grants : Dict Text Grant → M (Unit {0})
keep_grants grants s = (record s { grants = grants }, ok tt)

abbrev pub source_addr : Option Addr → M Addr
source_addr none s = (s, err invalid_source_ip)
source_addr (some a) s = (s, if a.unspecified then err invalid_source_ip else ok a)

-- One round of the loop over the removed sources.
unfoldable pub remove_sources : Answers → Dict Text Grant → Dict Text Addr → M (Unit {0})
remove_sources a candidate [] s = (s, ok tt)
remove_sources a candidate ((source, address) ∷ more) s =
    let kept = remove_sources a candidate more s in
    let gone =
      (do attempt (a.remove_grant address) firewall_apply_failed; remove_sources a candidate more)
        s in
    if has_grant_for source candidate then kept else gone

module _ (os : Platform) (net : NetIp) (digest : Text → Text) where
  -- The backend is at hand, and the table is as the service left it.
  unfoldable pub check_table : Answers → M (Unit {0})
  check_table a = do
    prepare_backend a
    λ s. (refresh_observed os net digest a.first_look s, ok tt)
    s ← get
    require (s.last_error == []) firewall_inspect_failed
    require (not s.drift) firewall_drift

  -- The grant of an address that is not this host's.
  unfoldable pub enter_grant : Answers → Text → Text → Addr → M (Unit {0})
  enter_grant a session_id ticket_id address = do
    expire a.now
    s ← get
    let key = grant_key address.text session_id ticket_id
    let known = elim (lookup key s.grants) as (λ _. Bool) [ none ↦ false | some g ↦ true ]
    require (known || ltb (length s.grants) max_temporary_grants) too_many_requests
    let ttl = s.state.system.grant_ttl_seconds * second
    attempt (a.add_grant address ttl) firewall_apply_failed
    keep_grants (
        insert key
          (record {
            source = address.text;
            session_id = session_id;
            ticket_id = ticket_id;
            expires_at = a.now + ttl;
          })
          s.grants)

  unfoldable pub grant_direct_access : Answers → Text → Text → Text → M (Unit {0})
  grant_direct_access a source session_id ticket_id s =
      let granting : M (Unit {0}) = (do
        check_table a
        given ← source_addr (net.parse_addr (trim_space source))
        let address = net.unmap given
        let entered = enter_grant a session_id ticket_id address
        if address.loopback then (λ s'. (s', ok tt)) else entered) in
      if s.state.system.enabled then granting s else (s, ok tt)

  unfoldable pub revoke_session_grants : Answers → Text → M (Unit {0})
  revoke_session_grants a session_id s =
      let live = unexpired a.now s.grants in
      let candidate = without_session session_id live in
      let expired = record s { grants = live } in
      let removing : M (Unit {0}) = (do
        check_table a
        remove_sources a candidate (sources_of net session_id live)
        keep_grants candidate) in
      if session_id == []
      then (s, ok tt)
      else (if s.state.system.enabled
          then removing expired
          else (record s { grants = candidate }, ok tt))

  -- `refreshLocked`
  unfoldable pub refresh : Answers → Service → Service
  refresh a s =
      let asked = record s { supported = a.supported } in
      if a.supported
      then refresh_observed os net digest a.first_look asked
      else record asked { table_present = false; drift = false }

  -- The state is applied again only where its table is gone.
  unfoldable pub initialize : Answers → M (Unit {0})
  initialize a s =
      let s' = refresh a s in
      let again = apply_candidate os net digest a s'.state s' in
      if not a.supported || not (s'.last_error == [])
      then (s', ok tt)
      else (if state_active s'.state && not s'.table_present then again else (s', ok tt))
