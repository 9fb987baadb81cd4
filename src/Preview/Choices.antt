-- ===== src/Preview/Choices.antt =====
-- What the user asks for and confirms: to edit, to close, to cancel, to reload.
use gothrough.Base.{
  ◌≡◌, refl, sym, ap, ◌∙◌, Bool, true, false, ◌||◌, not, Option, none, some, is_some, if_intro,
  Text, text_eq, text_eq→eq, arith,
}
use mathlib.Core.Path.{subst}
use mathlib.Core.Bool.{true≢false}
use mathlib.Core.Option.{some-injective}
use gothrough.Preview.{
  Info, Draft, Action, closing, cancelling, reloading_file, Preview, is_dirty, has_version, is_busy,
  reload, restore, mount_restored, mount, edit_info, perform_action, request_action, close,
  confirm_action, confirm_discard,
}
use gothrough.Preview.Facts.{
  Inv, idle_from_editing, OnSaving-none, idle_from_busy, none_not_some, text_of_self,
  pending_not_fresh, not_loading,
}

module _ (name : Text) where
  pub Inv-mount_restored :
      (shared found : Option Draft)
      → ((d : Draft) → found ≡ some d → (shared ≡ some d) × (d.name ≡ name))
      → Inv name (mount_restored shared found)
  unfolding mount_restored
  Inv-mount_restored shared none h = record {
    kept = λ _ d. cc;
    on_saving = tt;
    fresh = λ _. (refl, refl, refl, refl);
  }
  Inv-mount_restored shared (some d) h = record {
    kept = λ _ _.
        (h d refl).0
        ∙ ap some (ap (λ n. record { name = n; info = d.info; text = d.text }) (h d refl).1);
    on_saving = tt;
    fresh = λ q. cc;
  }

  pub restore-shared :
      (shared : Option Draft) (d : Draft)
      → restore name shared ≡ some d
      → (shared ≡ some d) × (d.name ≡ name)
  unfolding restore
  restore-shared none d = λ h. cc
  restore-shared (some x) d =
      if_intro (λ t. t ≡ some d → (some x ≡ some d) × (d.name ≡ name)) (text_eq x.name name) _ _
        (λ same h. (
          h,
          subst (λ (y : Draft). y.name ≡ name) (some-injective _ _ h) (text_eq→eq x.name name same),
        ))
        (λ _ h. cc)

  pub mount-Inv : (shared : Option Draft) → Inv name (mount name shared)
  unfolding mount
  mount-Inv shared = Inv-mount_restored shared (restore name shared) (restore-shared shared)

  pub edit_info-Inv :
      (info : Option Info) (s : Preview) → s.info ≡ info → Inv name s → Inv name (edit_info info s)
  unfolding edit_info
  edit_info-Inv none s e h = h
  edit_info-Inv (some i) s e h =
      if_intro (Inv name) (s.editing || (not (has_version (some i)) || s.reloading)) _ _ (λ _. h)
        (λ free. record {
          kept = λ g d. absurd (true≢false (sym d ∙ ap not (text_of_self s.info i e)));
          on_saving = OnSaving-none s.saving _ _ _ _ (
              idle_from_editing s.saving s.editing s.reloading s.draft s.info h.on_saving
                (ground arith));
          fresh = λ l. absurd (none_not_some s.info i (h.fresh l).1 e);
        })

  pub reload-Inv : (s : Preview) → (s.loading ≡ true → ⊥) → Inv name s → Inv name (reload s)
  unfolding reload
  reload-Inv s loaded h =
      if_intro (Inv name) (is_busy s) _ _ (λ _. h)
        (λ free. record {
          kept = h.kept;
          on_saving = OnSaving-none s.saving _ _ _ _ (idle_from_busy s.saving s.reloading free);
          fresh = λ l. absurd (loaded l);
        })

  pub perform_action-Inv :
      (a : Action) (s : Preview)
      → (s.loading ≡ true → ⊥)
      → is_busy s ≡ false
      → Inv name s
      → Inv name (perform_action name a s)
  unfolding perform_action
  perform_action-Inv closing s loaded free h = record {
    kept = λ g d. cc;
    on_saving = h.on_saving;
    fresh = h.fresh;
  }
  perform_action-Inv cancelling s loaded free h = record {
    kept = λ g d. cc;
    on_saving = OnSaving-none s.saving _ _ _ _ (idle_from_busy s.saving s.reloading free);
    fresh = λ l. absurd (loaded l);
  }
  perform_action-Inv reloading_file s loaded free h = reload-Inv s loaded h

  -- Closing a page whose file is still to come is harmless.
  pub request_action-Inv :
      (a : Action) (s : Preview)
      → (s.loading ≡ true → ⊥)
      → Inv name s
      → Inv name (request_action name a s)
  unfolding request_action
  request_action-Inv a s loaded h =
      if_intro (Inv name) (is_busy s) _ _ (λ _. h)
        (λ free.
          if_intro (Inv name) (is_dirty s) _ _
            (λ d. record { kept = h.kept; on_saving = h.on_saving; fresh = λ l. absurd (loaded l) })
            (λ _. perform_action-Inv a s loaded free h))

  pub request_closing-Inv : (s : Preview) → Inv name s → Inv name (request_action name closing s)
  unfolding request_action perform_action
  request_closing-Inv s h =
      if_intro (Inv name) (is_busy s) _ _ (λ _. h)
        (λ free.
          if_intro (Inv name) (is_dirty s) _ _
            (λ d. record {
              kept = h.kept;
              on_saving = h.on_saving;
              fresh = λ l. absurd (true≢false (sym l ∙ not_loading name s h d));
            })
            (λ _. record { kept = λ g d. cc; on_saving = h.on_saving; fresh = h.fresh }))

  pub without_pending-Inv :
      (b : Bool) (s : Preview)
      → Inv name s
      → Inv name (record s { blocked = b; pending_action = none })
  without_pending-Inv b s h = record {
    kept = h.kept;
    on_saving = h.on_saving;
    fresh = λ l. ((h.fresh l).0, (h.fresh l).1, (h.fresh l).2, refl);
  }

  pub close-Inv : (s : Preview) → Inv name s → Inv name (close name s)
  unfolding close
  close-Inv s h =
      if_intro (Inv name) s.blocked _ _ (λ _. without_pending-Inv false s h)
        (λ _.
          if_intro (Inv name) (is_some s.pending_action) _ _
            (λ _. without_pending-Inv s.blocked s h) (λ _. request_closing-Inv s h))

  pub confirm_action-Inv :
      (a : Option Action) (s : Preview)
      → s.pending_action ≡ a
      → is_busy s ≡ false
      → Inv name s
      → Inv name (confirm_action name a s)
  unfolding confirm_action
  confirm_action-Inv none s e free h = h
  confirm_action-Inv (some a) s e free h =
      perform_action-Inv a (record s { pending_action = none })
        (λ l. pending_not_fresh s.pending_action a (h.fresh l).3 e) free
        (without_pending-Inv s.blocked s h)

  pub confirm_discard-Inv : (s : Preview) → Inv name s → Inv name (confirm_discard name s)
  unfolding confirm_discard
  confirm_discard-Inv s h =
      if_intro (Inv name) (is_busy s) _ _ (λ _. h)
        (λ free.
          if_intro (Inv name) s.blocked _ _
            (λ _. record {
              kept = λ g d. cc;
              on_saving = h.on_saving;
              fresh = λ l. ((h.fresh l).0, (h.fresh l).1, (h.fresh l).2, refl);
            })
            (λ _. confirm_action-Inv s.pending_action s refl free h))
