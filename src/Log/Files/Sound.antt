-- ===== src/Log/Files/Sound.antt =====
-- The files of a rotating logger, each by itself.
use mathlib.Core.Path.{subst}
use mathlib.Core.List.{Perm}
use optimusprime.Prelude.{
  ℕ, zero, suc, ◌≤◌, ◌<◌, ◌≡◌, ◌≢◌, refl, ap, sym, ◌∙◌, arith, Bool, true, false, not, ◌&&◌, ◌==◌,
  ==_iff, Bool-cases, inl, inr, some, List, [], ◌∷◌, ◌++◌, length, length-append, length-set,
  get_elem?, set,
}
use optimusprime.Prelude.Text.{Bytes}
use optimusprime.Log.Writer.{
  Writer, new_writer, Event, accepts, closes, Step, accept, write, close, drain, finish, Run, here,
  next, accepted,
}
use optimusprime.Log.Writer.Stop.{Explains, Run-Explains}
use optimusprime.Log.Files.{
  Files, first_file, Label, picked, does, switched, IsOwn, FilesStep, picks, puts, works, shuts,
  switches, FilesRun,
}
use optimusprime.Log.Files
use optimusprime.Log.Files.Labels.{
  event_of, events_of, event_of_other, events_of_rest, events_of_step,
}
use optimusprime.Log.Files.Held.{picked_for, held_for, FilesRun-IsHeld}
use optimusprime.Log.Files.Places.{is_running, IsFile, to_run, IsSound, set_all, snoc_all}

own_running :
    {w v : Writer} {e : Event} → Step w e v → IsOwn e → is_running v.phase ≡ is_running w.phase
own_running (accept w b room) own = absurd own
own_running (write b rest written) own = refl
own_running (close buf written) own = absurd own
own_running (drain b rest written) own = refl
own_running (finish written) own = refl

accept_running :
    {w v : Writer} {b : Bytes} → Step w (accepts b) v → is_running v.phase ≡ is_running w.phase
accept_running (accept w b room) = refl

close_running : {w v : Writer} → Step w closes v → is_running v.phase ≡ false
close_running (close buf written) = refl

-- The file goes on by one step, or another does.
goes_on :
    {w v : Writer} {e : Event} (i : ℕ) (ls : List Label) (before after : Bool)
    → IsFile (events_of i ls) before w
    → Step w e v
    → is_running v.phase ≡ after
    → IsFile (events_of i (ls ++ does i e ∷ [])) after v
goes_on {v} {e} i ls before after f st alive = record {
  run = subst (λ es. Run new_writer es v) (sym (events_of_step i ls e)) (next f.run st);
  alive = alive;
}

keeps :
    (i : ℕ) (ls : List Label) (l : Label) (runs : Bool) (w : Writer)
    → event_of i l ≡ []
    → IsFile (events_of i ls) runs w
    → IsFile (events_of i (ls ++ l ∷ [])) runs w
keeps i ls l runs w e f = subst (λ es. IsFile es runs w) (sym (events_of_rest i ls l e)) f

in_range : (ws : List Writer) (i : ℕ) (w : Writer) → get_elem? ws i ≡ some w → i < length ws
in_range [] i w e = ground arith
in_range (x ∷ ws) zero w e = omega arith
in_range (x ∷ ws) (suc i) w e = omega (arith, in_range ws i w e)

-- A file that is not there yet has no events, whatever one that is there does.
still_unborn :
    (i : ℕ) (e : Event) (ls : List Label) (w v : Writer) (s : Files)
    → get_elem? s.writers i ≡ some w
    → IsSound ls s
    → (j : ℕ) → length (set s.writers i v) ≤ j
    → events_of j (ls ++ does i e ∷ []) ≡ []
still_unborn i e ls w v s at h j above =
    let same = length-set s.writers i v in
    let below = in_range s.writers i w at in
    events_of_rest j ls (does i e) (event_of_other i j e (λ eq. omega arith))
    ∙ h.unborn j (omega arith)

with_writer :
    (i : ℕ) (e : Event) (ls : List Label) (w v : Writer) (s : Files)
    → get_elem? s.writers i ≡ some w
    → IsSound ls s
    → Step w e v
    → is_running v.phase ≡ is_running w.phase
    → IsSound (ls ++ does i e ∷ []) (record s { writers = set s.writers i v })
with_writer i e ls w v s at h st alive =
    let f = h.file i w at in
    record {
      last = h.last ∙ sym (length-set s.writers i v);
      file =
          set_all (λ j. IsFile (events_of j (ls ++ does i e ∷ [])) (to_run s j)) s.writers i v
            (λ j u ne at'.
              keeps j ls (does i e) (to_run s j) u (event_of_other i j e ne) (h.file j u at'))
            (goes_on i ls (to_run s i) (to_run s i) f st (alive ∙ f.alive));
      unborn = still_unborn i e ls w v s at h;
    }

not_current : (b : Bool) (i j : ℕ) → i ≢ j → (i == j && b) ≡ false
not_current b i j ne = elim (Bool-cases (i == j)) [
  | inl same ↦ absurd (ne ((==_iff i j).0 same))
  | inr apart ↦ rw apart refl
]

never : (b : Bool) → (b && false) ≡ false
never true = refl
never false = refl

-- After the close no file runs.
shut_file :
    (ls : List Label) (s : Files) (j : ℕ) (u : Writer)
    → IsSound ls s
    → j ≢ s.current
    → get_elem? s.writers j ≡ some u
    → IsFile (events_of j ls) (j == s.current && false) u
shut_file ls s j u h ne e =
    let f = h.file j u e in
    record {
      run = f.run;
      alive = f.alive ∙ not_current (not s.rotating) j s.current ne ∙ sym (never (j == s.current));
    }

-- A file that was closed for the next one stays behind.
old_file :
    (ls : List Label) (s : Files) (j : ℕ) (u : Writer)
    → IsSound ls s
    → s.rotating ≡ true
    → get_elem? s.writers j ≡ some u
    → j < length s.writers
    → IsFile (events_of j ls) (j == length s.writers && true) u
old_file ls s j u h rot e below =
    let f = h.file j u e in
    record {
      run = f.run;
      alive =
          f.alive
          ∙ ap (λ r. j == s.current && not r) rot
          ∙ never (j == s.current)
          ∙ sym (not_current true j (length s.writers) (λ same. omega arith));
    }

new_file : (n : ℕ) (es : List Event) → es ≡ [] → IsFile es (n == n && true) new_writer
unfolding new_writer
new_file n es e = record {
  run = subst (λ xs. Run new_writer xs new_writer) (sym e) here;
  alive = sym (ap (λ b. b && true) ((==_iff n n).1 refl));
}

FilesStep-IsSound :
    {ls : List Label} {s t : Files} {l : Label}
    → FilesStep s l t
    → IsSound ls s
    → IsSound (ls ++ l ∷ []) t
FilesStep-IsSound {ls} {s} (picks b) h = record {
  last = h.last;
  file = λ i w at. keeps i ls (picked s.current b) (to_run s i) w refl (h.file i w at);
  unborn = λ i above. events_of_rest i ls (picked s.current b) refl ∙ h.unborn i above;
}
FilesStep-IsSound {ls} {s} (puts before after i b w v held at st) h =
    let h' = with_writer i (accepts b) ls w v s at h st (accept_running st) in
    record { last = h'.last; file = h'.file; unborn = h'.unborn }
FilesStep-IsSound {ls} {s} (works i e w v at own st) h =
    with_writer i e ls w v s at h st (own_running st own)
FilesStep-IsSound {ls} {s} (shuts w v open_ at st) h = record {
  last = h.last ∙ sym (length-set s.writers s.current v);
  file =
      set_all
        (λ j. IsFile (events_of j (ls ++ does s.current closes ∷ [])) (j == s.current && false))
        s.writers s.current v
        (λ j u ne e.
          keeps j ls (does s.current closes) (j == s.current && false) u
            (event_of_other s.current j closes ne) (shut_file ls s j u h ne e))
        (goes_on s.current ls (to_run s s.current) (s.current == s.current && false)
          (h.file s.current w at) st (close_running st ∙ sym (never (s.current == s.current))));
  unborn = still_unborn s.current closes ls w v s at h;
}
FilesStep-IsSound {ls} {s} (switches rot) h =
    let longer = length-append s.writers (new_writer ∷ []) in
    record {
      last = sym (longer ∙ omega arith);
      file =
          snoc_all (λ j. IsFile (events_of j (ls ++ switched ∷ [])) (j == length s.writers && true))
            s.writers new_writer
            (λ j u e below.
              keeps j ls switched (j == length s.writers && true) u refl
                (old_file ls s j u h rot e below))
            (new_file (length s.writers) _ (
              events_of_rest (length s.writers) ls switched refl
              ∙ h.unborn (length s.writers) (omega arith)));
      unborn = λ i above. events_of_rest i ls switched refl ∙ h.unborn i (omega (arith, longer));
    }

first_file-IsSound : IsSound [] first_file
unfolding first_file new_writer
first_file-IsSound = record {
  last = refl;
  file =
      snoc_all (λ j. IsFile [] (j == 0 && true)) [] new_writer (λ j u e below. ground arith)
        (new_file 0 [] refl);
  unborn = λ i above. refl;
}

FilesRun-IsSound : {ls : List Label} {s : Files} → FilesRun first_file ls s → IsSound ls s
FilesRun-IsSound Files.here = first_file-IsSound
FilesRun-IsSound (Files.next r st) = FilesStep-IsSound st (FilesRun-IsSound r)

-- At each moment of a rotating logger, with its callers and its goroutines in any order, at most one
-- file is written by a goroutine that was not told to stop, and it is that of rl.Logger. The lines for
-- which callers took the logger of a file are, but for their order, those that callers still hold for it
-- and those that it accepted. And by the events of this file in the run it has written, in order, the
-- lines that it accepted: all but those in its buffer while its goroutine is there, and all that came
-- before the goroutine stopped once it has.
pub files_explained :
    {ls : List Label} {s : Files} (i : ℕ) (w : Writer)
    → FilesRun first_file ls s
    → get_elem? s.writers i ≡ some w
    → (is_running w.phase ≡ (i == s.current && not s.rotating))
      × Perm (picked_for i ls) (held_for i s.pending ++ accepted (events_of i ls))
      × Run new_writer (events_of i ls) w
      × Explains w.phase w.buf (events_of i ls)
files_explained {ls} i w r e =
    let f = (FilesRun-IsSound r).file i w e in
    (f.alive, FilesRun-IsHeld i r, f.run, Run-Explains f.run)
