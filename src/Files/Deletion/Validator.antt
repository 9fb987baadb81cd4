-- ===== src/Files/Deletion/Validator.antt =====
-- Whatever the page does, the validator of its list is that of the list that it shows.
use gothrough.Base.{
  ℕ, ◌≡◌, refl, ap, ◌∙◌, true, false, ◌||◌, not, Option, none, some, is_some, List, [], ◌∷◌,
  if_intro, Text, inl, inr,
}
use gothrough.Messages.{Message, plain}
use gothrough.Remote
use gothrough.Remote.{
  Request, Remote, RemoteEvent, is_background, cancel, cancel_background, set_error, mount, unmount,
  release,
}
use gothrough.Remote.Invariant
use gothrough.Remote.Acceptance.{Kept, resolves-cases, rejects-Kept}
use gothrough.Listing.{
  Listing, Response, ConditionalResult, conditional_get, sent_with, opening, answered, respond,
  mutate, show_error, fail_load, leave, to_answer,
}
use gothrough.Listing.Honesty
use gothrough.Listing.Honesty.{IsTagged, IsHonest, respond-Inv}
use gothrough.Listing.Requests.{
  load-Inv, enter-Inv, cancel_load-Inv, cancel_poll-Inv, show_error-Inv, fail_load-Inv, leave-Inv,
  mutate-Inv, opening-Inv, forget-load-Inv, load-NoPoll,
}
use gothrough.Files.Deletion.{
  FileList, FilesPage, DeletionStage, acting, reloading, is_asked, without, opened, is_mounted,
  handle_delete, refresh_all, finish_delete, deleted, delete_failed, reload_settled, auto_refresh,
  auto_refresh_disk, manual_refresh, refresh_after_edit, stop_background, open_directory,
  ask_delete, preview, PageEvent, deletes, opens, asks, previews, searches, deletion_succeeds,
  reload_ends, polls, polls_disk, refreshes, edited, keeps, closes, leaves, deletion_fails, turns,
  list_answers, list_fails, disk_settles, step, run,
}

abbrev pub NoPoll : Option Request → Type 0
NoPoll o = is_background o ≡ false

-- A request that has gone, or is as it was, is no poll if it was none.
NoPoll-Kept {ℓ} : {A : Type ℓ} (s t : Remote A) → Kept s t → NoPoll s.request → NoPoll t.request
NoPoll-Kept s t k h = elim k.request [
  | inl same ↦ ap is_background same ∙ h
  | inr gone ↦ ap is_background gone
]

not_stage :
    (o : Option DeletionStage) (stage : DeletionStage) → is_some o ≡ false → o ≡ some stage → ⊥
not_stage none stage h e = cc
not_stage (some x) stage h e = cc

respond-NoPoll :
    (l : Listing (Option FileList)) (id : ℕ) (r : Response (Option FileList)) (failure : Message)
    → Remote.Invariant.Inv l.remote
    → NoPoll l.remote.request
    → NoPoll (respond id r failure l).remote.request
unfolding respond answered
respond-NoPoll l id r failure v q = settles (conditional_get (sent_with id l.sent) r)
  where
    settles :
        (o : Option (ConditionalResult (Option FileList)))
        → NoPoll (answered id failure o l).remote.request
    settles none =
        NoPoll-Kept l.remote (Remote.step l.remote (RemoteEvent.rejects id failure))
          (rejects-Kept l.remote id failure) q
    settles (some result) = elim (resolves-cases l.remote id (to_answer result) v) [
      | inl kept ↦
          NoPoll-Kept l.remote (Remote.step l.remote (RemoteEvent.resolves id (to_answer result)))
            kept q
      | inr c ↦ ap is_background c.released
    ]

leave-NoPoll : (l : Listing (Option FileList)) → NoPoll (leave l).remote.request
unfolding Remote.step unmount
leave-NoPoll l = refl

module _ {Disk : Type 0} (Tagged : Text → Option FileList → Type 0) where
  -- While a deletion is awaited, no poll is.
  pub record PageInv (p : FilesPage Disk) : Type 0 where
    pub listing : Honesty.Inv Tagged p.listing
    pub quiet : (name : Text) → p.operation ≡ some (acting name) → NoPoll p.listing.remote.request

  handle_delete-PageInv :
      (name : Text) (p : FilesPage Disk) → PageInv p → PageInv (handle_delete name p)
  unfolding handle_delete Remote.step cancel set_error
  handle_delete-PageInv name p h =
      if_intro PageInv (is_some p.operation || not (is_asked name p.confirming)) _ _ (λ _. h)
        (λ _. record {
          listing =
              cancel_load-Inv Tagged (show_error (plain []) p.listing)
                (show_error-Inv Tagged (plain []) p.listing h.listing);
          quiet = λ n e. refl;
        })

  finish_delete-PageInv : (p : FilesPage Disk) → PageInv p → PageInv (finish_delete p)
  finish_delete-PageInv p h = record { listing = h.listing; quiet = λ n e. cc }

  deleted-PageInv :
      (o : Option DeletionStage) (p : FilesPage Disk)
      → p.operation ≡ o
      → PageInv p
      → PageInv (deleted o p)
  unfolding deleted refresh_all
  deleted-PageInv none p e h = h
  deleted-PageInv (some reloading) p e h = h
  deleted-PageInv (some (acting name)) p e h =
      if_intro PageInv (is_mounted p) _ _
        (λ _. record {
          listing =
              load-Inv Tagged false (mutate (without name) p.listing)
                (mutate-Inv Tagged (without name) p.listing (h.quiet name e) h.listing);
          quiet = λ n q. cc;
        })
        (λ _. finish_delete-PageInv p h)

  delete_failed-PageInv :
      (o : Option DeletionStage) (error : Message) (p : FilesPage Disk)
      → PageInv p
      → PageInv (delete_failed o error p)
  unfolding delete_failed
  delete_failed-PageInv none error p h = h
  delete_failed-PageInv (some reloading) error p h = h
  delete_failed-PageInv (some (acting name)) error p h =
      if_intro (λ (q : FilesPage Disk). PageInv (finish_delete q)) (is_mounted p) _ _
        (λ _. record { listing = show_error-Inv Tagged _ p.listing h.listing; quiet = λ n e. cc })
        (λ _. finish_delete-PageInv p h)

  reload_settled-PageInv :
      (o : Option DeletionStage) (p : FilesPage Disk) → PageInv p → PageInv (reload_settled o p)
  unfolding reload_settled
  reload_settled-PageInv none p h = h
  reload_settled-PageInv (some reloading) p h = finish_delete-PageInv p h
  reload_settled-PageInv (some (acting name)) p h = h

  auto_refresh-PageInv : (p : FilesPage Disk) → PageInv p → PageInv (auto_refresh p)
  unfolding auto_refresh
  auto_refresh-PageInv p h =
      if_intro PageInv (is_some p.operation) _ _ (λ _. h)
        (λ free. record {
          listing = load-Inv Tagged true p.listing h.listing;
          quiet = λ n e. absurd (not_stage p.operation (acting n) free e);
        })

  auto_refresh_disk-PageInv : (p : FilesPage Disk) → PageInv p → PageInv (auto_refresh_disk p)
  unfolding auto_refresh_disk
  auto_refresh_disk-PageInv p h =
      if_intro PageInv (is_some p.operation) _ _ (λ _. h)
        (λ _. record { listing = h.listing; quiet = h.quiet })

  refresh_all-PageInv : (p : FilesPage Disk) → PageInv p → PageInv (refresh_all p)
  unfolding refresh_all
  refresh_all-PageInv p h = record {
    listing = load-Inv Tagged false p.listing h.listing;
    quiet = λ n e. load-NoPoll Tagged p.listing (h.quiet n e);
  }

  manual_refresh-PageInv : (p : FilesPage Disk) → PageInv p → PageInv (manual_refresh p)
  unfolding manual_refresh
  manual_refresh-PageInv p h =
      if_intro PageInv (is_some p.deleting) _ _ (λ _. h)
        (λ _. refresh_all-PageInv _ (record { listing = h.listing; quiet = h.quiet }))

  refresh_after_edit-PageInv : (p : FilesPage Disk) → PageInv p → PageInv (refresh_after_edit p)
  unfolding refresh_after_edit refresh_all mutate
  refresh_after_edit-PageInv p h = record {
    listing = forget-load-Inv Tagged p.listing h.listing;
    quiet = λ n e. load-NoPoll Tagged (mutate (λ files. files) p.listing) (h.quiet n e);
  }

  stop_background-PageInv : (p : FilesPage Disk) → PageInv p → PageInv (stop_background p)
  unfolding stop_background Remote.step cancel_background
  stop_background-PageInv p h = record {
    listing = cancel_poll-Inv Tagged p.listing h.listing;
    quiet = λ n e.
        if_intro (λ (s : Remote (Option FileList)). NoPoll s.request)
          (is_background p.listing.remote.request) _ _ (λ _. refl) (λ q. q);
  }

  open_directory-PageInv :
      (name : Text) (p : FilesPage Disk) → PageInv p → PageInv (open_directory name p)
  unfolding open_directory
  open_directory-PageInv name p h =
      if_intro PageInv (is_some p.operation) _ _ (λ _. h)
        (λ _. record { listing = h.listing; quiet = h.quiet })

  ask_delete-PageInv : (name : Text) (p : FilesPage Disk) → PageInv p → PageInv (ask_delete name p)
  unfolding ask_delete
  ask_delete-PageInv name p h =
      if_intro PageInv (is_some p.deleting) _ _ (λ _. h)
        (λ _.
          let q = stop_background-PageInv p h in record { listing = q.listing; quiet = q.quiet })

  preview-PageInv : (name : Text) (p : FilesPage Disk) → PageInv p → PageInv (preview name p)
  unfolding preview
  preview-PageInv name p h =
      let q = stop_background-PageInv p h in record { listing = q.listing; quiet = q.quiet }

  -- The server's answers are honest, as far as they answer requests of this page.
  abbrev pub HonestEvent : FilesPage Disk → PageEvent Disk → Type 0
  HonestEvent p (list_answers id r failure) = IsHonest Tagged (sent_with id p.listing.sent) r
  HonestEvent p _ = Unit

  step-PageInv :
      (p : FilesPage Disk) (e : PageEvent Disk) → HonestEvent p e → PageInv p → PageInv (step p e)
  unfolding step
  step-PageInv p (deletes name) honest h = handle_delete-PageInv name p h
  step-PageInv p (opens name) honest h = open_directory-PageInv name p h
  step-PageInv p (asks name) honest h = ask_delete-PageInv name p h
  step-PageInv p (previews name) honest h = preview-PageInv name p h
  step-PageInv p (searches query) honest h = record { listing = h.listing; quiet = h.quiet }
  step-PageInv p deletion_succeeds honest h = deleted-PageInv p.operation p refl h
  step-PageInv p reload_ends honest h = reload_settled-PageInv p.operation p h
  step-PageInv p polls honest h = auto_refresh-PageInv p h
  step-PageInv p polls_disk honest h = auto_refresh_disk-PageInv p h
  step-PageInv p refreshes honest h = manual_refresh-PageInv p h
  step-PageInv p edited honest h = refresh_after_edit-PageInv p h
  step-PageInv p keeps honest h = record { listing = h.listing; quiet = h.quiet }
  step-PageInv p closes honest h = record { listing = h.listing; quiet = h.quiet }
  step-PageInv p leaves honest h = record {
    listing = leave-Inv Tagged p.listing h.listing;
    quiet = λ n e. leave-NoPoll p.listing;
  }
  step-PageInv p (deletion_fails error) honest h = delete_failed-PageInv p.operation error p h
  step-PageInv p (turns n) honest h = record { listing = h.listing; quiet = h.quiet }
  step-PageInv p (list_answers id r failure) honest h = record {
    listing = respond-Inv Tagged p.listing id r failure honest h.listing;
    quiet = λ n e. respond-NoPoll p.listing id r failure h.listing.remote (h.quiet n e);
  }
  step-PageInv p (list_fails id failure) honest h = record {
    listing = fail_load-Inv Tagged id failure p.listing h.listing;
    quiet = λ n e.
        NoPoll-Kept p.listing.remote (fail_load id failure p.listing).remote
          (rejects-Kept p.listing.remote id failure) (h.quiet n e);
  }
  step-PageInv p (disk_settles e) honest h = record { listing = h.listing; quiet = h.quiet }

  opened-PageInv :
      (requested : Text) (preserved : Option Text)
      → PageInv (opened {Disk = Disk} requested preserved)
  opened-PageInv requested preserved = record {
    listing = enter-Inv Tagged (opening none) (opening-Inv Tagged none);
    quiet = λ n e. cc;
  }

  abbrev pub HonestRun : FilesPage Disk → List (PageEvent Disk) → Type 0
  HonestRun p [] = Unit
  HonestRun p (e ∷ es) = HonestEvent p e × HonestRun (step p e) es

  run-PageInv :
      (p : FilesPage Disk) (es : List (PageEvent Disk))
      → HonestRun p es
      → PageInv p
      → PageInv (run p es)
  unfolding run
  run-PageInv p [] honest h = h
  run-PageInv p (e ∷ es) (now, later) h = run-PageInv (step p e) es later (step-PageInv p e now h)

  -- In every history of the page, opened at any directory and with any draft, in which each answer
  -- to the list's requests is honest: the validator that the page keeps and would send next, if
  -- there is one, is a validator of the very list that it shows.
  pub run-opened-IsTagged :
      (requested : Text) (preserved : Option Text) (es : List (PageEvent Disk))
      → HonestRun (opened {Disk = Disk} requested preserved) es
      → IsTagged Tagged
          (run (opened requested preserved) es).listing.remote.validator
          (run (opened requested preserved) es).listing.remote.data'
  run-opened-IsTagged requested preserved es honest =
      (run-PageInv (opened requested preserved) es honest
        (opened-PageInv requested preserved)).listing.tagged
