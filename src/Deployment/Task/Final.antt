-- ===== src/Deployment/Task/Final.antt =====
-- What stays of a task that has finished.
use prism_panel.Common.{◌≡◌, refl, true, Option, arith}
use prism_panel.Common.Text.{Text}
use prism_panel.Deployment.Task.{
  Phase, launched, looping, deploying, releasing, ended, Task, go_on_from, Progress, begins, stages,
  advances, notes, note_progress, entering, deployed, failing, counting, halting,
}
use prism_panel.Deployment.Task.Sound.{is_over}

-- What is final about a task that has finished.
abbrev pub IsFinal : Task → Task → Type 0
IsFinal t u =
    (u.status ≡ t.status)
    × (u.completed_count ≡ t.completed_count)
    × (u.failed_count ≡ t.failed_count)
    × (u.error ≡ t.error)

pub same : (t : Task) → IsFinal t t
same t = (refl, refl, refl, refl)

pub go_on_from-IsFinal :
    (phase : Phase) (answer : Option Text) (t : Task)
    → is_over phase ≡ true
    → IsFinal t (go_on_from phase answer t)
unfolding go_on_from
go_on_from-IsFinal launched answer t o = absurd (ground (arith, o))
go_on_from-IsFinal (looping slots) answer t o = absurd (ground (arith, o))
go_on_from-IsFinal (entering slot slots) answer t o = absurd (ground (arith, o))
go_on_from-IsFinal (deploying slot slots) answer t o = absurd (ground (arith, o))
go_on_from-IsFinal (deployed slot slots) answer t o = absurd (ground (arith, o))
go_on_from-IsFinal (failing message slot slots) answer t o = absurd (ground (arith, o))
go_on_from-IsFinal (counting slots) answer t o = absurd (ground (arith, o))
go_on_from-IsFinal halting answer t o = absurd (ground (arith, o))
go_on_from-IsFinal releasing answer t o = same t
go_on_from-IsFinal ended answer t o = same t

pub note_progress-IsFinal : (p : Progress) (t : Task) → IsFinal t (note_progress p t)
unfolding note_progress
note_progress-IsFinal (begins s f b) t = same t
note_progress-IsFinal (stages s) t = same t
note_progress-IsFinal (advances b d) t = same t
note_progress-IsFinal (notes l s i) t = same t
