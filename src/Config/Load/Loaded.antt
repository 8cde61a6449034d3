-- ===== src/Config/Load/Loaded.antt =====
-- config/ConfigLoader.cpp: a configuration that `loadFromFile` returns.
use telefacet.Shared.{
  ℕ, zero, suc, ◌+◌, ltb, ◌==◌, Bool, true, false, not, ◌||◌, ◌++◌, Option, none, some, length, All,
  Text, codes, if◌then◌else◌, ◌≡◌, refl, ap, subst, ◌∙◌, arith,
}
use telefacet.Messages.{is_empty_text}
use telefacet.Config.{ServerCfg, CaptureSavingCfg, Config, default_saving, default_captures}
use telefacet.Config.Validation.{
  Checked, ok, failed, YamlOps, DoubleOrder, has_scheme, validate_address, is_listed, accept,
}
use telefacet.Config.Load.{
  read, require_key, check_sequence, server_steps, load_server, load_servers, load_processing,
  load_captures, if_there, load_root, load_from_file,
}
use telefacet.Config.Load.Checks.{Ensures, chain-Ensures, chain-any, Keeps, chain-Keeps, IsUsable}
use telefacet.Config.Load.Steps.{read-Keeps, load_processing-Ensures}

abbrev pub HasScheme : ServerCfg → Type 0
HasScheme c = has_scheme c.address ≡ true

abbrev pub HasDir : CaptureSavingCfg → Type 0
HasDir c = is_empty_text c.dir ≡ false

validate_address_lem :
    (address : Text) (index : ℕ)
    → validate_address address index ≡ ok tt
    → has_scheme address ≡ true
unfolding validate_address
validate_address_lem address index e = ground (arith, e)

-- There is a server, each has an address of a scheme for web sockets, the processing is in its
-- ranges and of a mode that there is, and captures have a directory.
abbrev pub IsConfig : DoubleOrder → Config → Type 0
IsConfig order cfg =
    (ltb 0 (length cfg.servers) ≡ true)
    × (All HasScheme cfg.servers × (IsUsable order cfg.saving × HasDir cfg.captures))

some-servers :
    (sequence : Bool) (n : ℕ) (message : Text)
    → (if not sequence || (n == 0) then failed message else ok (tt {0})) ≡ ok tt
    → ltb 0 n ≡ true
some-servers false n message e = cc
some-servers true zero message e = cc
some-servers true (suc n) message e = ground arith

module _ {Y : Type 0} (yaml : YamlOps Y) where
  server_steps-Keeps : (s : Y) → All (Keeps HasScheme) (server_steps yaml s)
  unfolding server_steps
  server_steps-Keeps s =
      let P = HasScheme in
      (
        read-Keeps yaml P (codes "sensor") yaml.as_text accept (λ v c. record c { sensor = v }) s
            (λ a c q h. h),
        (
          read-Keeps yaml P (codes "width") yaml.as_unsigned accept
              (λ v c. record c { width = some v }) s (λ a c q h. h),
          (
            read-Keeps yaml P (codes "height") yaml.as_unsigned accept
                (λ v c. record c { height = some v }) s (λ a c q h. h),
            (
              read-Keeps yaml P (codes "raw") yaml.as_bool accept (λ v c. record c { raw = v }) s
                  (λ a c q h. h),
              tt,
            ),
          ),
        ),
      )

  load_server-Ensures : (index : ℕ) (s : Y) → Ensures HasScheme (load_server yaml index s)
  unfolding load_server
  load_server-Ensures index s = chain-any HasScheme (require_key yaml (codes "address") s) _ λ n e.
      chain-any HasScheme (yaml.as_text n) _ λ address e.
        chain-any HasScheme (validate_address address index) _ λ u e.
          (chain-Keeps HasScheme (server_steps yaml s) (server_steps-Keeps s)).keeps _
            (validate_address_lem address index e)

  load_servers-Ensures :
      (count index : ℕ) (node : Y)
      → Ensures (λ l. (length l ≡ count) × All HasScheme l) (load_servers yaml count index node)
  unfolding load_servers
  load_servers-Ensures zero index node = (refl, tt)
  load_servers-Ensures (suc count) index node =
      chain-Ensures HasScheme _ (load_server yaml index (yaml.elem index node)) _
        (load_server-Ensures index (yaml.elem index node))
        λ c h.
          chain-Ensures _ _ (load_servers yaml count (index + 1) node) _
            (load_servers-Ensures count (index + 1) node) λ l k. (omega (arith, k.0), (h, k.1))

  load_captures-Ensures : (n : Y) (c : CaptureSavingCfg) → Ensures HasDir (load_captures yaml n c)
  unfolding load_captures
  load_captures-Ensures n c =
      chain-any HasDir
        (read yaml (codes "save") yaml.as_bool accept (λ v c. record c { save = v }) n c) _
        λ c e.
          chain-any HasDir
            (read yaml (codes "dir") yaml.as_text accept (λ v c. record c { dir = v }) n c) _
            λ d e. checked d (is_empty_text d.dir) refl
    where
      checked :
          (d : CaptureSavingCfg) (t : Bool)
          → is_empty_text d.dir ≡ t
          → Ensures HasDir (if t then failed (codes "captures.dir must not be empty") else ok d)
      checked d true e = tt
      checked d false e = e

  if_there-Ensures :
      {C : Type 0} (P : C → Type 0) (key : Text) (load : Y → C → Checked C) (root : Y) (c : C)
      → P c
      → ((n : Y) → Ensures P (load n c))
      → Ensures P (if_there yaml key load root c)
  if_there-Ensures P key load root c h k = chain-any P (yaml.get key root) _ λ o e. there o
    where
      there : (o : Option Y) → Ensures P (elim o [ none ↦ ok c | some n ↦ load n c ])
      there none = h
      there (some n) = k n

  check_sequence_lem :
      (servers : Y) → check_sequence yaml servers ≡ ok tt → ltb 0 (yaml.size servers) ≡ true
  unfolding check_sequence
  check_sequence_lem servers e = some-servers (yaml.is_sequence servers) (yaml.size servers) _ e

  load_root-Ensures :
      (order : DoubleOrder)
      → order.equal 0 0 ≡ true
      → (root : Y) → Ensures (IsConfig order) (load_root yaml order root)
  unfolding load_root is_listed
  load_root-Ensures order zero_is root =
      let P = IsConfig order in
      let defaults : IsUsable order default_saving = (
        (
          (0, refl, omega arith, omega arith),
          (
            (16, refl, omega arith, omega arith),
            (
              (0, refl, omega arith, omega arith),
              ((0, refl, omega arith, omega arith), (rw zero_is refl, λ w e. cc)),
            ),
          ),
        ),
        refl,
      ) in
      chain-any P (require_key yaml (codes "servers") root) _ λ servers e.
        chain-any P (check_sequence yaml servers) _ λ u f.
          chain-Ensures _ P (load_servers yaml (yaml.size servers) 0 servers) _
            (load_servers-Ensures (yaml.size servers) 0 servers)
            λ list k.
              chain-Ensures (IsUsable order) P
                (if_there yaml (codes "processing") (load_processing yaml order) root
                  default_saving)
                _
                (if_there-Ensures (IsUsable order) (codes "processing") (load_processing yaml order)
                  root default_saving defaults
                  (λ n. load_processing-Ensures yaml order n default_saving defaults.0))
                λ saving p.
                  chain-Ensures HasDir P
                    (if_there yaml (codes "captures") (load_captures yaml) root default_captures) _
                    (if_there-Ensures HasDir (codes "captures") (load_captures yaml) root
                      default_captures refl (λ n. load_captures-Ensures n default_captures))
                    λ captures d. (ap (ltb 0) k.0 ∙ check_sequence_lem servers f, (k.1, (p, d)))

  -- A configuration that is loaded is well formed, whatever the file holds, if a double 0 equals
  -- itself: it has a server, and each has an address of a scheme for web sockets; its mode is one of
  -- those that there are; a capture skips 0 to 100 frames, a stack has 1 to 1024 frames, an exposure
  -- of 0 to 10000000 microseconds and a gain that is 0 or from 1 to 64; a window for corners, if there
  -- is one, is of 0 to 100 pixels; and captures have a directory.
  pub load_from_file-IsConfig :
      (order : DoubleOrder)
      → order.equal 0 0 ≡ true
      → (load : Text → Checked Y) (path : Text) (cfg : Config)
      → load_from_file yaml order load path ≡ ok cfg
      → IsConfig order cfg
  unfolding load_from_file
  load_from_file-IsConfig order zero_is load path cfg e =
      subst (Ensures (IsConfig order)) e (loaded (load path))
    where
      loaded :
          (c : Checked Y)
          → Ensures (IsConfig order) (elim c [
            | failed e ↦ failed (codes "failed to load YAML " ++ path ++ codes ": " ++ e)
            | ok root ↦ load_root yaml order root
          ])
      loaded (failed e) = tt
      loaded (ok root) = load_root-Ensures order zero_is root
