-- ===== src/Server/Instances.antt =====
-- A valid configuration names its instances apart, and gives each a port.
use mathlib.Core.List.{append_cancel_left}
use prism_panel.Common.{
  ℕ, zero, suc, ◌≤◌, ◌<◌, ◌≡◌, refl, ap, ◌∙◌, inl, inr, true, false, List, [], ◌∷◌, ◌++◌, map,
  if◌then◌else◌, ◌==◌, nat_eq, text_eq, contains, eq→≡, length, take, arith, All, Bool-cases,
}
use prism_panel.Common.Text.{Text, codes}
use prism_panel.Common.Decimal.{show, show_inj}
use prism_panel.Common.Error.{ok}
use prism_panel.Server.{
  Paths, ServerConfig, InstanceConfig, standalone, port_ok, ports_ok, instance_id_of,
  validate_mirror, validate, mirror_instances, instances,
}

abbrev pub ids_of : List InstanceConfig → List Text
ids_of = map (λ i. i.instance_id)

abbrev pub Distinct : List Text → Type 0
Distinct [] = Unit
Distinct (x ∷ xs) = (contains xs x ≡ false) × Distinct xs

-- An instance of the server, with a port that can be used.
abbrev pub IsProper : ServerConfig → InstanceConfig → Type 0
IsProper s i = (i.server_id ≡ s.server_id) × (1 ≤ i.port) × (i.port ≤ 65_535)

instance_id_of_inj : (id : Text) (m n : ℕ) → instance_id_of id m ≡ instance_id_of id n → m ≡ n
unfolding instance_id_of
instance_id_of_inj id m n e =
    show_inj m n (append_cancel_left (id ++ codes "_") (show m) (show n) e)

length-take : (n : ℕ) (xs : List ℕ) → n ≤ length xs → length (take n xs) ≡ n
length-take zero xs h = omega arith
length-take (suc n) [] h = absurd (omega arith)
length-take (suc n) (x ∷ xs) h = omega (arith, length-take n xs (omega arith))

module _ (fs : Paths) where
  -- The slots behind a slot do not name it.
  later_ids :
      (s : ServerConfig) (k slot : ℕ) (ps : List ℕ)
      → k < slot
      → contains (ids_of (mirror_instances fs s slot ps)) (instance_id_of s.server_id k) ≡ false
  unfolding mirror_instances
  later_ids s k slot [] h = refl
  later_ids s k slot (p ∷ ps) h =
      elim (Bool-cases (instance_id_of s.server_id k == instance_id_of s.server_id slot)) [
        | inl same ↦ absurd (
            omega (
              arith,
              h,
              instance_id_of_inj s.server_id k slot
                  (eq→≡ (instance_id_of s.server_id k) (instance_id_of s.server_id slot) same),
            ))
        | inr other ↦ rw other (later_ids s k (suc slot) ps (omega arith))
      ]

  mirror_instances-Distinct :
      (s : ServerConfig) (slot : ℕ) (ps : List ℕ)
      → Distinct (ids_of (mirror_instances fs s slot ps))
  unfolding mirror_instances
  mirror_instances-Distinct s slot [] = tt
  mirror_instances-Distinct s slot (p ∷ ps) =
      (later_ids s slot (suc slot) ps (omega arith), mirror_instances-Distinct s (suc slot) ps)

  mirror_instances-IsProper :
      (s : ServerConfig) (slot : ℕ) (ps : List ℕ)
      → ports_ok ps ≡ true
      → All (IsProper s) (mirror_instances fs s slot ps)
  unfolding mirror_instances ports_ok port_ok
  mirror_instances-IsProper s slot [] h = tt
  mirror_instances-IsProper s slot (p ∷ ps) h =
      ((refl, ground arith, ground arith), mirror_instances-IsProper s (suc slot) ps (ground arith))

  length-mirror_instances :
      (s : ServerConfig) (slot : ℕ) (ps : List ℕ)
      → length (mirror_instances fs s slot ps) ≡ length ps
  unfolding mirror_instances
  length-mirror_instances s slot [] = refl
  length-mirror_instances s slot (p ∷ ps) = ap suc (length-mirror_instances s (suc slot) ps)

  -- The instances of a valid server: their ids differ, each belongs to the server and has a port
  -- between 1 and 65535, and there are as many as asked for.
  pub record IsLawful (s : ServerConfig) : Type 0 where
    pub distinct : Distinct (ids_of (instances fs s))
    pub proper : All (IsProper s) (instances fs s)
    pub count : length (instances fs s) ≡ (if s.kind == standalone then 1 else s.instance_count)
    pub some_instance : 1 ≤ length (instances fs s)

  validate_alone_lem :
      (s : ServerConfig)
      → (s.kind == standalone) ≡ true
      → validate fs s ≡ ok tt
      → port_ok s.port ≡ true
  unfolding validate
  validate_alone_lem s k h = ground arith

  validate_mirror_lem :
      (s : ServerConfig)
      → (s.kind == standalone) ≡ false
      → validate fs s ≡ ok tt
      → (0 < s.instance_count)
        × (s.instance_count ≤ length s.ports)
        × (ports_ok (take s.instance_count s.ports) ≡ true)
  unfolding validate validate_mirror
  validate_mirror_lem s k h = ground arith

  -- A configuration that `Validate` accepts makes instances whose ids differ, each of the server and
  -- with a port between 1 and 65535: one, or as many as it asks for, one at least.
  pub validate-IsLawful : (s : ServerConfig) → validate fs s ≡ ok tt → IsLawful s
  unfolding instances
  validate-IsLawful s h = elim (Bool-cases (s.kind == standalone)) [
    | inl one ↦
        let p = validate_alone_lem s one h in
        unfold port_ok in
        record {
          distinct = rw one (refl, tt);
          proper = rw one ((refl, ground arith, ground arith), tt);
          count = rw one refl;
          some_instance = rw one (omega arith);
        }
    | inr many ↦
        let (pos, enough, ports) = validate_mirror_lem s many h in
        let l =
          length-mirror_instances s 1 (take s.instance_count s.ports)
          ∙ length-take s.instance_count s.ports enough in
        record {
          distinct = rw many (mirror_instances-Distinct s 1 (take s.instance_count s.ports));
          proper = rw many (mirror_instances-IsProper s 1 (take s.instance_count s.ports) ports);
          count = rw many l;
          some_instance = rw many (omega (arith, l));
        }
  ]
