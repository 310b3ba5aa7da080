-- ===== src/Messages/Same.antt =====
-- Steps of kernel/proc.c that change nothing of who waits to send to whom.
use soi_laboratoria_2025z.Base.{◌≡◌, sym, ◌∙◌, List, [], ◌∷◌}
use soi_laboratoria_2025z.Kernel.Defs.{Ptr}
use soi_laboratoria_2025z.Messages.Defs.{Kernel, Config}
use soi_laboratoria_2025z.Messages.Path.{is_sending, SendPath, NoCycle}
use soi_laboratoria_2025z.Messages.Queues.{Links-frame, Callers}

pub record SameWaits (k k' : Kernel) : Type 0 where
  pub sending : (x : Ptr) → is_sending k' x ≡ is_sending k x
  pub sendto : (x : Ptr) → (k'.talk x).p_sendto ≡ (k.talk x).p_sendto
  pub link : (x : Ptr) → (k'.talk x).p_sendlink ≡ (k.talk x).p_sendlink
  pub queue : (x : Ptr) → (k'.talk x).p_callerq ≡ (k.talk x).p_callerq

SameWaits-path :
    (c : Config) (k k' : Kernel) (p : Ptr) (qs : List Ptr)
    → SameWaits k k'
    → SendPath c k p qs
    → SendPath c k' p qs
SameWaits-path c k k' p [] w h = w.sending p ∙ h
SameWaits-path c k k' p (q ∷ qs) w h =
    (w.sending p ∙ h.0, w.sendto p ∙ h.1, h.2, SameWaits-path c k k' q qs w h.3)

pub SameWaits-NoCycle : (c : Config) (k k' : Kernel) → SameWaits k k' → NoCycle c k → NoCycle c k'
SameWaits-NoCycle c k k' w all p t =
    let (qs, path) = all p t in (qs, SameWaits-path c k k' p qs w path)

pub SameWaits-Callers :
    (c : Config) (k k' : Kernel) (lists : Ptr → List Ptr)
    → SameWaits k k'
    → Callers c k lists
    → Callers c k' lists
SameWaits-Callers c k k' lists w q = record {
  links = λ d t.
      rw (w.queue d) (
        Links-frame c k.talk k'.talk (k.talk d).p_callerq (lists d) (λ x i. w.link x)
          (q.links d t));
  once = q.once;
  sends = λ p x t i. (w.sending x ∙ (q.sends p x t i).0, w.sendto x ∙ (q.sends p x t i).1);
  waits = λ x t s. rw (w.sendto x) (q.waits x t (sym (w.sending x) ∙ s));
}
