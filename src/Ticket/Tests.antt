-- ===== src/Ticket/Tests.antt =====
-- Runs of the ticket manager at concrete inputs.
use prism_panel.Common.{
  ℕ, ◌+◌, ◌-◌, ◌≤◌, ◌≡◌, refl, ◌↔◌, ◌⊎◌, ◌&&◌, true, false, leb, if◌then◌else◌, List, [], ◌∷◌, none,
  some, text_eq, nat_eq, contains,
}
use prism_panel.Common.Int.{ℤ}
use prism_panel.Common.Text.{
  codes, trim_space, trim_left, is_space, has_prefix, split, join, push_char,
}
use prism_panel.Common.Dict.{lookup, insert, delete, keys}
use prism_panel.Common.Platform.{Platform}
use prism_panel.Ticket.Path.{
  climb, clean_part, clean_parts, path_clean, slashed, normalize_path, path_allowed,
}
use prism_panel.Ticket.Path.Safety.{Confined, normalize_path-Confined}
use prism_panel.Ticket.Path.Scope.{Covers, path_allowed_iff}
use prism_panel.Ticket.Model.{
  Ticket, RestrictedOptions, Draw, Manager, new_manager, write, sweep_one, sweep_all, sweep,
  remove_expired, revoke_session,
}
use prism_panel.Ticket.Consume.{
  active_ticket, consume_ticket, source_allowed, consume_matching, normalize_client_ip,
  consume_from, consume_restricted_from,
}
use prism_panel.Ticket.Create.{
  enter, prepare_ticket, create_with_options, restrict, check_restricted,
}
use prism_panel.Ticket.Invariant.{Wf, new_manager-Wf}
use prism_panel.Ticket.Trace.{
  Call, creates, consumes, revokes, revokes_session, step, run, FreshCall, step-Wf, run-Wf,
}
use prism_panel.Ticket.Budget.{left, run-grants-le}
use prism_panel.Ticket.Access.{
  Request, consume_request, IsVouched, consume_request-IsVouched, restrict_after_revocation,
  create_at_once,
}

-- A machine that takes every address for canonical, with the case of ASCII letters.
abbrev os : Platform
os = record {
  canonical_ip = some;
  upper = λ c. if leb 97 c && leb c 122 then c - 32 else c;
  lower = λ c. if leb 65 c && leb c 90 then c + 32 else c;
}

abbrev draw : Draw
draw = record { id = some (codes "i1"); token = some (codes "t1"); created = 10; swept = 10 }

abbrev creation : Call
creation =
    creates (codes "download") (codes "a") (ℤ.pos 1000) (ℤ.pos 2)
      (record { client_ip = []; session_id = codes "s1" }) draw

-- The manager with one ticket for two downloads.
abbrev stocked : Manager
stocked = (step os new_manager creation).0

abbrev options : RestrictedOptions
options = record {
  scope = codes "download";
  resource_type = codes "instance";
  resource_id = codes "a";
  path = codes "plugins";
  paths = [];
  path_prefix = true;
  method = codes "get";
  operation_id = [];
  allow_overwrite = false;
  allow_recursive = false;
  max_bytes = ℤ.pos 0;
  sha256 = [];
  expected_version = [];
  ttl = ℤ.pos 1000;
  max_uses = ℤ.pos 2;
  client_ip = [];
  session_id = codes "s1";
}

creation-fresh : FreshCall os [] new_manager creation
unfolding new_manager remove_expired sweep sweep_all lookup keys
creation-fresh = ((λ t e. refl, λ i e. refl), λ e. cc)

stocked-Wf : Wf stocked
stocked-Wf = step-Wf os [] new_manager creation creation-fresh new_manager-Wf

abbrev download : ℕ → Call
download now = consumes (codes "t1") (codes "download") (codes "a") (codes "10.0.0.1") now

abbrev downloads : List Call
downloads = download 20 ∷ download 21 ∷ download 22 ∷ []

two_downloads : (run os (codes "t1") stocked downloads).1 ≡ 2
unfolding run step consume_from normalize_client_ip consume_matching active_ticket consume_ticket
    source_allowed trim_space trim_left is_space lookup insert delete write create_with_options
    prepare_ticket enter remove_expired sweep sweep_all sweep_one keys new_manager nat_eq text_eq
two_downloads = refl

run-grants-le_example :
    (run os (codes "t1") stocked downloads).1
      + left (codes "t1") (run os (codes "t1") stocked downloads).0
    ≤ left (codes "t1") stocked
run-grants-le_example =
    run-grants-le os (codes "t1") stocked downloads (tt, (tt, (tt, tt))) stocked-Wf

abbrev endings : List Call
endings = download 20 ∷ revokes_session (codes "s1") ∷ revokes (codes "i1") ∷ []

run-Wf_example : Wf (run os (codes "t1") stocked endings).0
run-Wf_example = run-Wf os (codes "t1") stocked endings (tt, (tt, (tt, tt))) stocked-Wf

normalize_path-Confined_example : Confined (codes "plugins/x/a.jar")
unfolding normalize_path slashed path_clean clean_parts clean_part climb split join push_char
    has_prefix trim_space trim_left is_space nat_eq text_eq
normalize_path-Confined_example =
    normalize_path-Confined (codes " plugins\\./x//a.jar") (codes "plugins/x/a.jar") refl

path_allowed_iff_example : (path_allowed [] true (codes "plugins") (codes "plugins-old") ≡ true) ↔ (
    (contains [] (codes "plugins-old") ≡ true)
    ⊎ Covers true (codes "plugins") (codes "plugins-old"))
path_allowed_iff_example = path_allowed_iff [] true (codes "plugins") (codes "plugins-old")

restrict_after_revocation_example :
    restrict os (revoke_session stocked (codes "s1")) (codes "i1") options (codes "plugins") []
    ≡ none
unfolding step consume_from create_with_options prepare_ticket normalize_client_ip enter trim_space
    trim_left is_space lookup insert delete write remove_expired sweep sweep_all sweep_one keys
    new_manager nat_eq text_eq
restrict_after_revocation_example =
    restrict_after_revocation os stocked (codes "i1") (codes "s1") 0 options (codes "plugins") []
      stocked-Wf refl refl (λ e. cc)

-- The manager with one restricted ticket.
abbrev restricted : Manager
restricted = (create_at_once os new_manager options draw).0

abbrev request : Request
request = record {
  token = codes "t1";
  scope = codes "download";
  resource_type = codes "instance";
  resource_id = codes "a";
  path = codes "plugins/a.jar";
  method = codes "get";
  source = codes "10.0.0.1";
}

abbrev handed : Ticket
handed = let t = restricted.store 0 in record t { uses = 1 }

consume_request-IsVouched_example : IsVouched os restricted request 20 handed
unfolding consume_restricted_from normalize_client_ip consume_matching active_ticket consume_ticket
    source_allowed trim_space trim_left is_space lookup insert delete write prepare_ticket enter
    check_restricted path_allowed remove_expired sweep sweep_all sweep_one keys new_manager nat_eq
    text_eq normalize_path slashed path_clean clean_parts clean_part climb split join push_char
    has_prefix
consume_request-IsVouched_example =
    consume_request-IsVouched os restricted request 20
      {m' = (consume_request os restricted request 20).0} {t = handed} refl
