-- ===== src/Mem/Setup/Stages/Attaches.antt =====
-- Each step of the other side keeps the invariant; it waits only while the constructor has steps to take.
use gaia_net.Base.{
  ℕ, ◌+◌, ◌<◌, ◌≡◌, ◌≢◌, ◌⊎◌, inl, inr, refl, sym, subst, Bool, true, none, some, arith, Bool-cases,
  Option-cases,
}
use gaia_net.Mem.Setup.Pairing.{attach_init_lem}
use gaia_net.Mem.Setup.Stages.{
  Side, send_ring, recv_ring, Creator, clears, locks, opens, inits, frees, up, Attacher, looks,
  queues, attaches, releases, joined, World, set, Turn, waiting, failed, goes, when_free, look,
  on_attach, on_object, attach,
}
use gaia_net.Mem.Setup.Stages.Fits.{
  out, outside, leaving, gone, made_of, Fits-wait, Fits-busy, Fits-look, Fits-queue, Fits-attach,
  Fits-release,
}
use gaia_net.Mem.Setup.Stages.Inv.{
  sent, received, send_at, recv_at, creator_left, attacher_left, put_same, Inv, send_kept,
  recv_kept, Send, Recv,
}

module _ (size : ℕ) (cv : Bool) (base : ℕ) where
  -- After a step of the other side, which waits only while the constructor has steps to take.
  abbrev pub AttacherSound : Creator → ℕ → Turn → Type 0
  AttacherSound c left waiting = (left ≡ 0) ⊎ (0 < creator_left c)
  AttacherSound c left failed = ⊥
  AttacherSound c left (goes w') =
      Inv size cv base c w'.attacher w' × (attacher_left w'.attacher + 1 ≡ left)

  not_up :
      (r : Side) (c : Creator) {left : ℕ} → made_of c r ≢ out → (left ≡ 0) ⊎ (0 < creator_left c)
  not_up r (clears send_ring) h = inr (omega arith)
  not_up r (clears recv_ring) h = inr (omega arith)
  not_up r (locks send_ring) h = inr (omega arith)
  not_up r (locks recv_ring) h = inr (omega arith)
  not_up r (opens send_ring) h = inr (omega arith)
  not_up r (opens recv_ring) h = inr (omega arith)
  not_up r (inits send_ring id) h = inr (omega arith)
  not_up r (inits recv_ring id) h = inr (omega arith)
  not_up r (frees send_ring) h = inr (omega arith)
  not_up r (frees recv_ring) h = inr (omega arith)
  not_up r up h = absurd (h refl)

  module _ (c : Creator) (w : World) where
    pub attach-Sound :
        (a : Attacher)
        → Inv size cv base c a w
        → AttacherSound c (attacher_left a) (attach size cv a w)
    attach-Sound (looks recv_ring) v = elim (Option-cases (w.names recv_ring)) [
      | inl e ↦
          subst (λ o. AttacherSound c 8 (look o w recv_ring)) (sym e)
            (not_up recv_ring c (
              Fits-wait (received size cv base) (recv_at base w) (made_of c recv_ring) e v.at_recv))
      | inr (k, e) ↦
          let (same, fits) =
            Fits-look (received size cv base) (recv_at base w) (made_of c recv_ring) k e
              v.at_recv in
          subst (λ o. AttacherSound c 8 (look o w recv_ring)) (sym e)
            (
              record {
                at_send = v.at_send;
                at_recv = fits;
                free_from = v.free_from;
                creator_knows = v.creator_knows;
                attacher_knows = same;
              },
              refl,
            )
    ]
    attach-Sound (queues recv_ring k) v = elim (Bool-cases (w.locked recv_ring)) [
      | inl e ↦
          subst
            (λ b. AttacherSound c 7 (
              when_free b (record w {
                locked = set recv_ring true w.locked;
                attacher = attaches recv_ring k;
              })))
            (sym e)
            (not_up recv_ring c (
              Fits-busy (received size cv base) (recv_at base w) (made_of c recv_ring) e v.at_recv))
      | inr e ↦
          let fits =
            Fits-queue (received size cv base) (recv_at base w) (made_of c recv_ring) e v.at_recv in
          subst
            (λ b. AttacherSound c 7 (
              when_free b (record w {
                locked = set recv_ring true w.locked;
                attacher = attaches recv_ring k;
              })))
            (sym e)
            (
              record {
                at_send = v.at_send;
                at_recv = fits;
                free_from = v.free_from;
                creator_knows = v.creator_knows;
                attacher_knows = v.attacher_knows;
              },
              refl,
            )
    ]
    attach-Sound (attaches recv_ring k) v =
        let (there, fits) =
          Fits-attach (received size cv base) (recv_at base w) (made_of c recv_ring) v.at_recv in
        subst (λ x. AttacherSound c 6 (attach size cv (attaches recv_ring x) w))
          (sym v.attacher_knows)
          (subst (λ o. AttacherSound c 6 (on_object cv o w recv_ring (base + 1))) (sym there)
            (subst (λ o. AttacherSound c 6 (on_attach o w recv_ring (base + 1)))
              (sym (attach_init_lem size cv))
              (
                record {
                  at_send =
                      subst
                        (λ o.
                          Send size cv base (made_of c send_ring) outside
                            (record (send_at base w) { object = o }))
                        (sym (send_kept size cv base _ w.objects)) v.at_send;
                  at_recv =
                      subst
                        (λ o.
                          Recv size cv base (made_of c recv_ring) leaving (record (recv_at base w) {
                            name = none;
                            object = o;
                            got = some (base + 1);
                          }))
                        (sym (put_same (base + 1) _ w.objects)) fits;
                  free_from = v.free_from;
                  creator_knows = v.creator_knows;
                  attacher_knows = tt;
                },
                refl,
              )))
    attach-Sound (releases recv_ring) v = (
      record {
        at_send = v.at_send;
        at_recv =
            Fits-release (received size cv base) (recv_at base w) (made_of c recv_ring) v.at_recv;
        free_from = v.free_from;
        creator_knows = v.creator_knows;
        attacher_knows = tt;
      },
      refl,
    )
    attach-Sound (looks send_ring) v = elim (Option-cases (w.names send_ring)) [
      | inl e ↦
          subst (λ o. AttacherSound c 4 (look o w send_ring)) (sym e)
            (not_up send_ring c
              (Fits-wait (sent size cv base) (send_at base w) (made_of c send_ring) e v.at_send))
      | inr (k, e) ↦
          let (same, fits) =
            Fits-look (sent size cv base) (send_at base w) (made_of c send_ring) k e v.at_send in
          subst (λ o. AttacherSound c 4 (look o w send_ring)) (sym e)
            (
              record {
                at_send = fits;
                at_recv = v.at_recv;
                free_from = v.free_from;
                creator_knows = v.creator_knows;
                attacher_knows = same;
              },
              refl,
            )
    ]
    attach-Sound (queues send_ring k) v = elim (Bool-cases (w.locked send_ring)) [
      | inl e ↦
          subst
            (λ b. AttacherSound c 3 (
              when_free b (record w {
                locked = set send_ring true w.locked;
                attacher = attaches send_ring k;
              })))
            (sym e)
            (not_up send_ring c
              (Fits-busy (sent size cv base) (send_at base w) (made_of c send_ring) e v.at_send))
      | inr e ↦
          let fits =
            Fits-queue (sent size cv base) (send_at base w) (made_of c send_ring) e v.at_send in
          subst
            (λ b. AttacherSound c 3 (
              when_free b (record w {
                locked = set send_ring true w.locked;
                attacher = attaches send_ring k;
              })))
            (sym e)
            (
              record {
                at_send = fits;
                at_recv = v.at_recv;
                free_from = v.free_from;
                creator_knows = v.creator_knows;
                attacher_knows = v.attacher_knows;
              },
              refl,
            )
    ]
    attach-Sound (attaches send_ring k) v =
        let (there, fits) =
          Fits-attach (sent size cv base) (send_at base w) (made_of c send_ring) v.at_send in
        subst (λ x. AttacherSound c 2 (attach size cv (attaches send_ring x) w))
          (sym v.attacher_knows)
          (subst (λ o. AttacherSound c 2 (on_object cv o w send_ring base)) (sym there)
            (subst (λ o. AttacherSound c 2 (on_attach o w send_ring base))
              (sym (attach_init_lem size cv))
              (
                record {
                  at_send =
                      subst
                        (λ o.
                          Send size cv base (made_of c send_ring) leaving
                            (record (send_at base w) { name = none; object = o; got = some base }))
                        (sym (put_same base _ w.objects)) fits;
                  at_recv =
                      subst
                        (λ o.
                          Recv size cv base (made_of c recv_ring) gone
                            (record (recv_at base w) { object = o }))
                        (sym (recv_kept size cv base _ w.objects)) v.at_recv;
                  free_from = v.free_from;
                  creator_knows = v.creator_knows;
                  attacher_knows = tt;
                },
                refl,
              )))
    attach-Sound (releases send_ring) v = (
      record {
        at_send = Fits-release (sent size cv base) (send_at base w) (made_of c send_ring) v.at_send;
        at_recv = v.at_recv;
        free_from = v.free_from;
        creator_knows = v.creator_knows;
        attacher_knows = tt;
      },
      refl,
    )
    attach-Sound joined v = inl refl
