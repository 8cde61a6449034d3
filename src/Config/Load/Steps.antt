-- ===== src/Config/Load/Steps.antt =====
-- config/ConfigLoader.cpp: what the steps of the loader keep.
use mathlib.Core.Option.{some-injective}
use telefacet.Shared.{Option, none, some, All, Text, codes, ◌≡◌, subst}
use telefacet.Config.{FrameSavingCfg}
use telefacet.Config.Validation.{
  Checked, ok, ◌>>=◌, YamlOps, DoubleOrder, check_int, check_window, check_exposure, check_gain,
  accept, chain, with_valid_mode,
}
use telefacet.Config.Load.{
  file_steps, checkerboard_steps, aruco_steps, request_steps, processing_steps, body_steps, read,
  load_files, load_checkerboard, load_aruco, load_requests, load_processing,
}
use telefacet.Config.Load.Checks.{
  Ensures, chain-Ensures, chain-any, Keeps, chain-Keeps, IsFrom, AreInBounds, IsUsable,
  check_int-IsFrom, check_window-IsFrom, check_exposure-IsFrom, check_gain_lem, for_mode-Keeps,
  with_valid_mode-Ensures,
}

module _ {Y : Type 0} (yaml : YamlOps Y) where
  pub read-Keeps :
      {A C : Type 0} (P : C → Type 0) (key : Text) (convert : Y → Checked A)
      (check : A → Checked (Unit {0})) (place : A → C → C) (node : Y)
      → ((a : A) (c : C) → check a ≡ ok tt → P c → P (place a c))
      → Keeps P (read yaml key convert check place node)
  unfolding read
  read-Keeps {A} {C} P key convert check place node k = record {
    keeps = λ c h. chain-any P (yaml.get key node) _ λ o e. of c h o;
  }
    where
      of :
          (c : C)
          → P c
          → (o : Option Y)
          → Ensures P
              (elim o [ none ↦ ok c | some n ↦ convert n >>= λ a. check a >>= λ _. ok (place a c) ])
      of c h none = h
      of c h (some n) = chain-any P (convert n) _ λ a e. chain-any P (check a) _ λ u q. k a c q h

  file_steps-Keeps :
      (order : DoubleOrder) (f : Y) → All (Keeps (IsUsable order)) (file_steps yaml f)
  unfolding file_steps
  file_steps-Keeps order f =
      let P = IsUsable order in
      (
        read-Keeps P (codes "save_frames") yaml.as_bool accept (λ v c. record c { save_frames = v })
            f (λ a c q h. h),
        (
          read-Keeps P (codes "output_dir") yaml.as_text accept (λ v c. record c { output_dir = v })
              f (λ a c q h. h),
          (
            read-Keeps P (codes "prepend_timestamp_to_dir") yaml.as_bool accept
                (λ v c. record c { prepend_timestamp_to_dir = v }) f (λ a c q h. h),
            (
              read-Keeps P (codes "batch_size") yaml.as_size accept
                  (λ v c. record c { batch_size = v }) f (λ a c q h. h),
              (
                read-Keeps P (codes "writer_threads") yaml.as_size accept
                    (λ v c. record c { writer_threads = v }) f (λ a c q h. h),
                (
                  read-Keeps P (codes "backlog_max_bytes") yaml.as_size accept
                      (λ v c. record c { backlog_max_bytes = v }) f (λ a c q h. h),
                  (
                    read-Keeps P (codes "disk_write_bytes_per_sec") yaml.as_size accept
                        (λ v c. record c { disk_write_bytes_per_sec = v }) f (λ a c q h. h),
                    (
                      read-Keeps P (codes "allow_overcommit") yaml.as_bool accept
                          (λ v c. record c { allow_overcommit = v }) f (λ a c q h. h),
                      tt,
                    ),
                  ),
                ),
              ),
            ),
          ),
        ),
      )

  checkerboard_steps-Keeps :
      (order : DoubleOrder) (f : Y) → All (Keeps (IsUsable order)) (checkerboard_steps yaml f)
  unfolding checkerboard_steps
  checkerboard_steps-Keeps order f =
      let P = IsUsable order in
      (
        read-Keeps P (codes "checkerboard_rows") yaml.as_int accept
            (λ v c. record c { checkerboard_rows = v }) f (λ a c q h. h),
        (
          read-Keeps P (codes "checkerboard_cols") yaml.as_int accept
              (λ v c. record c { checkerboard_cols = v }) f (λ a c q h. h),
          (
            read-Keeps P (codes "checkerboard_full_res_detection") yaml.as_bool accept
                (λ v c. record c { checkerboard_full_res_detection = v }) f (λ a c q h. h),
            (
              read-Keeps P (codes "checkerboard_num_threads") yaml.as_int accept
                  (λ v c. record c { checkerboard_num_threads = v }) f (λ a c q h. h),
              (
                read-Keeps P (codes "checkerboard_subpix_window") yaml.as_int check_window
                    (λ v c. record c { checkerboard_subpix_window = some v }) f
                    (λ a c q h. (
                      (
                        h.0.0,
                        (
                          h.0.1.0,
                          (
                            h.0.1.1.0,
                            (
                              h.0.1.1.1.0,
                              (
                                h.0.1.1.1.1.0,
                                λ w e.
                                    subst (IsFrom 0 100) (some-injective a w e)
                                      (check_window-IsFrom a q),
                              ),
                            ),
                          ),
                        ),
                      ),
                      h.1,
                    )),
                tt,
              ),
            ),
          ),
        ),
      )

  aruco_steps-Keeps :
      (order : DoubleOrder) (f : Y) → All (Keeps (IsUsable order)) (aruco_steps yaml f)
  unfolding aruco_steps
  aruco_steps-Keeps order f =
      let P = IsUsable order in
      (
        read-Keeps P (codes "aruco_full_res_detection") yaml.as_bool accept
            (λ v c. record c { aruco_full_res_detection = v }) f (λ a c q h. h),
        (
          read-Keeps P (codes "aruco_num_threads") yaml.as_int accept
              (λ v c. record c { aruco_num_threads = v }) f (λ a c q h. h),
          (
            read-Keeps P (codes "aruco_corner_refine") yaml.as_bool accept
                (λ v c. record c { aruco_corner_refine = v }) f (λ a c q h. h),
            tt,
          ),
        ),
      )

  request_steps-Keeps :
      (order : DoubleOrder) (f : Y) → All (Keeps (IsUsable order)) (request_steps yaml order f)
  unfolding request_steps
  request_steps-Keeps order f =
      let P = IsUsable order in
      (
        read-Keeps P (codes "trigger_skip_frames") yaml.as_int
            (check_int (codes "trigger_skip_frames") 0 100)
            (λ v c. record c { trigger_skip_frames = v }) f
            (λ a c q h. ((check_int-IsFrom (codes "trigger_skip_frames") 0 100 a q, h.0.1), h.1)),
        (
          read-Keeps P (codes "stack_num_frames") yaml.as_int
              (check_int (codes "stack_num_frames") 1 1024)
              (λ v c. record c { stack_num_frames = v }) f
              (λ a c q h.
                ((h.0.0, (check_int-IsFrom (codes "stack_num_frames") 1 1024 a q, h.0.1.1)), h.1)),
          (
            read-Keeps P (codes "stack_skip_frames") yaml.as_int
                (check_int (codes "stack_skip_frames") 0 100)
                (λ v c. record c { stack_skip_frames = v }) f
                (λ a c q h. (
                  (
                    h.0.0,
                    (h.0.1.0, (check_int-IsFrom (codes "stack_skip_frames") 0 100 a q, h.0.1.1.1)),
                  ),
                  h.1,
                )),
            (
              read-Keeps P (codes "stack_exposure_time") yaml.as_int64 check_exposure
                  (λ v c. record c { stack_exposure_time = v }) f
                  (λ a c q h. (
                    (h.0.0, (h.0.1.0, (h.0.1.1.0, (check_exposure-IsFrom a q, h.0.1.1.1.1)))),
                    h.1,
                  )),
              (
                read-Keeps P (codes "stack_analogue_gain") yaml.as_double (check_gain order)
                    (λ v c. record c { stack_analogue_gain = v }) f
                    (λ a c q h. (
                      (
                        h.0.0,
                        (
                          h.0.1.0,
                          (h.0.1.1.0, (h.0.1.1.1.0, (check_gain_lem order a q, h.0.1.1.1.1.1))),
                        ),
                      ),
                      h.1,
                    )),
                tt,
              ),
            ),
          ),
        ),
      )

  body_steps-Keeps :
      (order : DoubleOrder) (f : Y) → All (Keeps (IsUsable order)) (body_steps yaml order f)
  unfolding body_steps load_files load_checkerboard load_requests load_aruco
  body_steps-Keeps order f =
      let P = IsUsable order in
      (
        chain-Keeps P (file_steps yaml f) (file_steps-Keeps order f),
        (
          for_mode-Keeps _ _ _
              (chain-Keeps P (checkerboard_steps yaml f) (checkerboard_steps-Keeps order f)),
          (
            chain-Keeps P (request_steps yaml order f) (request_steps-Keeps order f),
            (
              for_mode-Keeps _ _ _ (chain-Keeps P (aruco_steps yaml f) (aruco_steps-Keeps order f)),
              tt,
            ),
          ),
        ),
      )

  pub load_processing-Ensures :
      (order : DoubleOrder) (f : Y) (c : FrameSavingCfg)
      → AreInBounds order c
      → Ensures (IsUsable order) (load_processing yaml order f c)
  unfolding load_processing processing_steps chain
  load_processing-Ensures order f c h =
      let B = AreInBounds order in
      let mode : Keeps B
          (read yaml (codes "mode") yaml.as_text accept (λ v c. record c { mode = v }) f) =
        read-Keeps B (codes "mode") yaml.as_text accept (λ v c. record c { mode = v }) f
          (λ a c q h. h) in
      chain-Ensures B (IsUsable order) _ _ (mode.keeps c h) λ c h.
        chain-Ensures (IsUsable order) (IsUsable order) (with_valid_mode c)
          (chain (body_steps yaml order f)) (with_valid_mode-Ensures order c h)
          (chain-Keeps (IsUsable order) (body_steps yaml order f) (body_steps-Keeps order f)).keeps
