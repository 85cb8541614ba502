-- ===== src/Ticket/Create.antt =====
-- daemon/internal/ticket/manager.go: the creating calls.
use mathlib.Core.Option
use prism_panel.Common.{
  suc, ◌+◌, Bool, ◌||◌, not, List, [], ◌∷◌, map, Option, none, some, ltb, if◌then◌else◌, ◌==◌,
  nat_eq, text_eq,
}
use prism_panel.Common.Int.{ℤ, is_positive, to_nat}
use prism_panel.Common.Text.{Text, codes, trim_space}
use prism_panel.Common.Dict.{lookup, insert}
use prism_panel.Common.Platform.{Platform}
use prism_panel.Common.Error.{Result, ok, err, ◌>>=◌, invalid_ticket, internal}
use prism_panel.Ticket.Path.{normalize_path}
use prism_panel.Ticket.Model.{
  Ticket, TicketOptions, RestrictedOptions, Draw, Manager, max_ttl, blank, write, remove_expired,
}
use prism_panel.Ticket.Consume.{normalize_client_ip}

abbrev pub drawn : Option Text → Result Text
drawn none = err internal
drawn (some value) = ok value

abbrev pub known_type : Text → Bool
known_type t = (t == codes "instance") || (t == codes "image") || (t == codes "daemon")

abbrev pub no_options : TicketOptions
no_options = record { client_ip = []; session_id = [] }

abbrev pub options_of : RestrictedOptions → TicketOptions
options_of o = record { client_ip = o.client_ip; session_id = o.session_id }

-- A new ticket at a new address, entered in both maps.
unfoldable pub enter : Manager → Ticket → Manager
enter m t = record {
  store = write m.store m.next t;
  next = suc m.next;
  by_token = insert t.token m.next m.by_token;
  by_id = insert t.id m.next m.by_id;
}

-- `if len(cleanPaths) == 0 { cleanPaths = []string{cleanPath} }`
abbrev pub or_own : Text → List Text → List Text
or_own path [] = path ∷ []
or_own path (p ∷ ps) = p ∷ ps

-- The second critical section of `CreateUpload`.
unfoldable pub attach_upload : Manager → Ticket → Text → ℤ → Manager × Ticket
attach_upload m item sha256 max_bytes = elim (lookup item.id m.by_id) [
  | none ↦ (m, item)
  | some p ↦
      let t = record (m.store p) { sha256 = sha256; max_bytes = max_bytes } in
      (record m { store = write m.store p t }, t)
]

abbrev pub clean_all : List Text → Result (List Text)
clean_all [] = ok []
clean_all (p ∷ ps) = do q ← normalize_path p; qs ← clean_all ps; ok (q ∷ qs)

-- The checks of `CreateRestricted` before it creates: the clean path and the clean paths.
unfoldable pub check_restricted : RestrictedOptions → Result (Text × List Text)
check_restricted o =
    if not (known_type o.resource_type)
    then err invalid_ticket
    else (if (trim_space o.resource_id == []) || (trim_space o.method == [])
        then err invalid_ticket
        else (do
          path ← normalize_path o.path
          paths ← clean_all o.paths
          ok (path, or_own path paths)))

module _ (os : Platform) where
  -- The ticket of `CreateWithOptions`, before it is entered.
  unfoldable pub prepare_ticket : Text → Text → ℤ → ℤ → TicketOptions → Draw → Result Ticket
  prepare_ticket scope instance_id ttl max_uses options draw =
      if not (is_positive ttl) || ltb max_ttl (to_nat ttl) then err invalid_ticket else (do
        ip ← normalize_client_ip os options.client_ip
        id ← drawn draw.id
        token ← drawn draw.token
        ok (record blank {
          id = id;
          token = token;
          scope = scope;
          instance_id = instance_id;
          expires_at = draw.created + to_nat ttl;
          max_uses = if is_positive max_uses then to_nat max_uses else 1;
          client_ip = ip;
          session_id = trim_space options.session_id;
        }))

  unfoldable pub create_with_options :
      Manager → Text → Text → ℤ → ℤ → TicketOptions → Draw → Manager × Result Ticket
  create_with_options m scope instance_id ttl max_uses options draw =
      elim (prepare_ticket scope instance_id ttl max_uses options draw) [
        | err e ↦ (m, err e)
        | ok t ↦ (enter (remove_expired draw.swept m) t, ok t)
      ]

  abbrev pub restricted_fields : RestrictedOptions → Text → List Text → Ticket → Ticket
  restricted_fields o path paths t = record t {
    resource_type = o.resource_type;
    resource_id = o.resource_id;
    path = path;
    paths = paths;
    path_prefix = o.path_prefix;
    method = map os.upper o.method;
    operation_id = o.operation_id;
    allow_overwrite = o.allow_overwrite;
    allow_recursive = o.allow_recursive;
    max_bytes = o.max_bytes;
    sha256 = map os.lower o.sha256;
    expected_version = map os.lower (trim_space o.expected_version);
  }

  -- The second critical section of `CreateRestricted`, which reads the map again: `none` is the
  -- dereference of a nil pointer.
  unfoldable pub restrict :
      Manager → Text → RestrictedOptions → Text → List Text → Option (Manager × Ticket)
  restrict m id o path paths = elim (lookup id m.by_id) [
    | none ↦ none
    | some p ↦
        let t = restricted_fields o path paths (m.store p) in
        some (record m { store = write m.store p t }, t)
  ]

  unfoldable pub create_restricted :
      Manager → RestrictedOptions → Draw → Option (Manager × Result Ticket)
  create_restricted m o draw = elim (check_restricted o) [
    | err e ↦ some (m, err e)
    | ok (path, paths) ↦
        let (m', made) =
          create_with_options m o.scope o.resource_id o.ttl o.max_uses (options_of o) draw in
        elim made [
          | err e ↦ some (m', err e)
          | ok t ↦ Option.map (λ (m'', t'). (m'', ok t')) (restrict m' t.id o path paths)
        ]
  ]

  unfoldable pub create_upload :
      Manager → Text → Text → Text → ℤ → ℤ → Draw → Manager × Result Ticket
  create_upload m scope resource_id sha256 max_bytes ttl draw =
      if (sha256 == []) || not (is_positive max_bytes)
      then (m, err invalid_ticket)
      else (let (m', made) =
            create_with_options m scope resource_id ttl (ℤ.pos 1) no_options draw in
          elim made [
            | err e ↦ (m', err e)
            | ok t ↦ let (m'', t') = attach_upload m' t sha256 max_bytes in (m'', ok t')
          ])
