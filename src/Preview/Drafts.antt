-- ===== src/Preview/Drafts.antt =====
-- Unsaved edits stand in the shared draft, which outlives the preview.
use gothrough.Base.{
  ℕ, ◌≡◌, refl, sym, ap, ◌∙◌, Bool, true, false, ◌&&◌, ◌||◌, not, Option, none, some, is_some, List,
  [], ◌∷◌, if_intro, Text, text_eq, arith, ltb,
}
use mathlib.Core.Path.{subst}
use mathlib.Core.Bool.{true≢false}
use gothrough.Upload.Retry.{HttpError}
use gothrough.Preview.{
  Info, Draft, Preview, remember, is_dirty, has_version, is_busy, has_pending_action, mount,
  on_loaded, save_info, type_in, type_text, save_succeeded, reload_succeeded, keep_editing, proceed,
  max_text_bytes, save, load_failed, save_failed, reload_failed, PreviewEvent, edits, saves, closes,
  confirms, keeps, blocks, proceeds, unmounts, loads, reloads, types, save_succeeds, requests,
  load_fails, save_fails, reload_fails, step, run,
}
use gothrough.Preview.Facts.{
  IsKept, Inv, idle_from_editing, idle_from_reloading, OnSaving-none, idle_from_busy, some_not_none,
  not_shown, and_left, is_reloading, dirty_text,
}
use gothrough.Preview.Choices.{
  mount-Inv, edit_info-Inv, request_action-Inv, without_pending-Inv, close-Inv, confirm_discard-Inv,
}

module _ (name : Text) where
  remember-IsKept :
      (i : Info) (text : Text)
      → not (text_eq text i.text) ≡ true
      → remember (record { name = name; info = i; text = text })
        ≡ some (record { name = name; info = i; text = text })
  unfolding remember
  remember-IsKept i text d =
      if_intro (λ o. o ≡ some (record { name = name; info = i; text = text })) (text_eq text i.text)
        _ _ (λ same. absurd (true≢false (sym d ∙ ap not same))) (λ _. refl)

  type_in-Inv :
      (info : Option Info) (text : Text) (s : Preview)
      → s.info ≡ info
      → s.editing ≡ true
      → is_busy s ≡ false
      → Inv name s
      → Inv name (type_in name info text s)
  unfolding type_in
  type_in-Inv none text s e on free h = record {
    kept = λ g d. rw e tt;
    on_saving = OnSaving-none s.saving _ _ _ _ (idle_from_busy s.saving s.reloading free);
    fresh = h.fresh;
  }
  type_in-Inv (some i) text s e on free h = record {
    kept = λ g d.
        subst (λ o. IsKept name o text (remember (record { name = name; info = i; text = text })))
          (sym e) (remember-IsKept i text (dirty_text s.info i text s.editing e d));
    on_saving = OnSaving-none s.saving _ _ _ _ (idle_from_busy s.saving s.reloading free);
    fresh = h.fresh;
  }

  type_text-Inv : (text : Text) (s : Preview) → Inv name s → Inv name (type_text name text s)
  unfolding type_text
  type_text-Inv text s h =
      if_intro (Inv name) (not s.editing || (is_busy s || has_pending_action s)) _ _ (λ _. h)
        (λ on. type_in-Inv s.info text s refl (ground arith) (ground arith) h)

  save_info-Inv :
      (info : Option Info) (s : Preview)
      → s.info ≡ info
      → s.editing ≡ true
      → s.reloading ≡ false
      → Inv name s
      → Inv name (save_info info s)
  unfolding save_info
  save_info-Inv none s e on still h = h
  save_info-Inv (some i) s e on still h = record {
    kept = h.kept;
    on_saving = (on, still, refl, e);
    fresh = h.fresh;
  }

  save-Inv : (utf8_length : Text → ℕ) (s : Preview) → Inv name s → Inv name (save utf8_length s)
  unfolding save
  save-Inv utf8_length s h =
      if_intro (Inv name)
        (is_busy s
          || (has_pending_action s
              || (not (is_dirty s)
                  || (s.conflict
                      || (not (has_version s.info) || ltb max_text_bytes (utf8_length s.draft))))))
        _ _ (λ _. h) (λ go. save_info-Inv s.info s refl (ground arith) (ground arith) h)

  saving_not_fresh :
      (sv : Option (Text × Info)) (x : Text × Info) (s : Preview)
      → sv ≡ some x
      → s.saving ≡ sv
      → Inv name s
      → s.loading ≡ true
      → ⊥
  saving_not_fresh sv x s e at h l = some_not_none sv x e (
      sym at
      ∙ idle_from_editing s.saving s.editing s.reloading s.draft s.info h.on_saving (h.fresh l).0)

  save_succeeded-Inv :
      (sv : Option (Text × Info)) (version : Text) (s : Preview)
      → s.saving ≡ sv
      → Inv name s
      → Inv name (save_succeeded name sv version s)
  unfolding save_succeeded
  save_succeeded-Inv none version s at h = h
  save_succeeded-Inv (some (text, i)) version s at h =
      if_intro (Inv name) s.gone _ _
        (λ _. record { kept = h.kept; on_saving = tt; fresh = h.fresh })
        (λ _. record {
          kept = λ g d. cc;
          on_saving = tt;
          fresh = λ l. absurd (saving_not_fresh (some (text, i)) (text, i) s refl at h l);
        })

  reload_succeeded-Inv :
      (i : Info) (s : Preview) → Inv name s → Inv name (reload_succeeded name i s)
  unfolding reload_succeeded
  reload_succeeded-Inv i s h =
      if_intro (Inv name) (not s.reloading || s.gone) _ _ (λ _. h)
        (λ on. record {
          kept = λ g d. cc;
          on_saving = OnSaving-none s.saving _ _ _ _ (
              idle_from_reloading s.saving s.editing s.reloading s.draft s.info h.on_saving
                (ground arith));
          fresh =
              λ l. absurd (true≢false (sym (is_reloading s.reloading s.gone on) ∙ (h.fresh l).2));
        })

  on_loaded-Inv : (i : Info) (s : Preview) → Inv name s → Inv name (on_loaded i s)
  unfolding on_loaded
  on_loaded-Inv i s h =
      if_intro (Inv name) (s.loading && not s.gone) _ _
        (λ on.
          let fresh = h.fresh (and_left s.loading (not s.gone) on) in
          record {
            kept = λ g d. absurd (true≢false (sym (and_left s.editing _ d) ∙ fresh.0));
            on_saving = OnSaving-none s.saving _ _ _ _ (
                idle_from_editing s.saving s.editing s.reloading s.draft s.info h.on_saving
                  fresh.0);
            fresh = λ l. cc;
          })
        (λ _. h)

  proceed-Inv : (s : Preview) → Inv name s → Inv name (proceed s)
  unfolding proceed
  proceed-Inv s h =
      if_intro (Inv name) (s.blocked && (not (is_dirty s) && not (is_some s.saving))) _ _
        (λ _. record { kept = λ g d. cc; on_saving = h.on_saving; fresh = h.fresh }) (λ _. h)

  module _ (exists : Text → Bool) (e : HttpError) where
    load_failed-Inv : (s : Preview) → Inv name s → Inv name (load_failed exists e s)
    unfolding load_failed
    load_failed-Inv s h =
        if_intro (Inv name) (s.loading && not s.gone) _ _
          (λ _. record { kept = h.kept; on_saving = h.on_saving; fresh = λ l. cc }) (λ _. h)

    save_failed-Inv : (s : Preview) → Inv name s → Inv name (save_failed exists e s)
    unfolding save_failed
    save_failed-Inv s h =
        if_intro (Inv name) s.gone _ _
          (λ _. record { kept = h.kept; on_saving = tt; fresh = h.fresh })
          (λ _. record { kept = h.kept; on_saving = tt; fresh = h.fresh })

    reload_failed-Inv : (s : Preview) → Inv name s → Inv name (reload_failed exists e s)
    unfolding reload_failed
    reload_failed-Inv s h =
        if_intro (Inv name) (not s.reloading || s.gone) _ _ (λ _. h)
          (λ on. record {
            kept = h.kept;
            on_saving = OnSaving-none s.saving _ _ _ _ (
                idle_from_reloading s.saving s.editing s.reloading s.draft s.info h.on_saving
                  (ground arith));
            fresh = λ l. ((h.fresh l).0, (h.fresh l).1, refl, (h.fresh l).3);
          })

  module _ (utf8_length : Text → ℕ) (exists : Text → Bool) where
    step-Inv :
        (s : Preview) (e : PreviewEvent) → Inv name s → Inv name (step name utf8_length exists s e)
    unfolding step keep_editing
    step-Inv s edits h = edit_info-Inv name s.info s refl h
    step-Inv s saves h = save-Inv utf8_length s h
    step-Inv s closes h = close-Inv name s h
    step-Inv s confirms h = confirm_discard-Inv name s h
    step-Inv s keeps h = without_pending-Inv name false s h
    step-Inv s blocks h = record { kept = h.kept; on_saving = h.on_saving; fresh = h.fresh }
    step-Inv s proceeds h = proceed-Inv s h
    step-Inv s unmounts h = record { kept = λ g d. cc; on_saving = h.on_saving; fresh = h.fresh }
    step-Inv s (loads i) h = on_loaded-Inv i s h
    step-Inv s (reloads i) h = reload_succeeded-Inv i s h
    step-Inv s (types text) h = type_text-Inv text s h
    step-Inv s (save_succeeds version) h = save_succeeded-Inv s.saving version s refl h
    step-Inv s (requests action) h =
        if_intro (Inv name) (is_some s.info) _ _
          (λ shown. request_action-Inv name action s (λ l. not_shown s.info (h.fresh l).1 shown) h)
          (λ _. h)
    step-Inv s (load_fails e) h = load_failed-Inv exists e s h
    step-Inv s (save_fails e) h = save_failed-Inv exists e s h
    step-Inv s (reload_fails e) h = reload_failed-Inv exists e s h

    run-Inv :
        (s : Preview) (es : List PreviewEvent)
        → Inv name s
        → Inv name (run name utf8_length exists s es)
    unfolding run
    run-Inv s [] h = h
    run-Inv s (e ∷ es) h = run-Inv (step name utf8_length exists s e) es (step-Inv s e h)

    -- In every history of a preview, from whatever shared draft it opens with: while the preview is
    -- open, the unsaved edits of a loaded text that it shows stand in the shared draft, with the
    -- version that they were begun from; and a save in flight has sent what the editor shows.
    pub run-mount-Inv :
        (shared : Option Draft) (es : List PreviewEvent)
        → Inv name (run name utf8_length exists (mount name shared) es)
    run-mount-Inv shared es = run-Inv (mount name shared) es (mount-Inv name shared)
