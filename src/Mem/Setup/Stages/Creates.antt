-- ===== src/Mem/Setup/Stages/Creates.antt =====
-- Each step of the constructor keeps the invariant, and none of them waits or fails.
use gaia_net.Base.{ℕ, ◌+◌, ◌≡◌, refl, ap, sym, ◌∙◌, subst, Bool, true, none, some, arith}
use gaia_net.Mem.View
use gaia_net.Mem.View.{View, attach_init}
use gaia_net.Mem.Setup.Stages.{
  send_ring, recv_ring, Creator, clears, locks, opens, inits, frees, up, Attacher, World, set, put,
  Turn, waiting, failed, goes, memory, open_or_make, when_free, create,
}
use gaia_net.Mem.Setup.Stages.Fits.{
  absent, raw, filled, out, got_of, Fits-clear, Fits-lock, Fits-open, Fits-init, Fits-free,
}
use gaia_net.Mem.Setup.Stages.Inv.{
  sent, received, send_at, recv_at, creator_left, put_same, new, Inv, send_kept, recv_kept, Send,
  Recv,
}

module _ (size : ℕ) (cv : Bool) (base : ℕ) where
  -- After a step of the constructor.
  abbrev pub CreatorSound : ℕ → Attacher → Turn → Type 0
  CreatorSound left a waiting = left ≡ 0
  CreatorSound left a failed = ⊥
  CreatorSound left a (goes w') =
      Inv size cv base w'.creator a w' × (creator_left w'.creator + 1 ≡ left)

  module _ (a : Attacher) (w : World) where
    pub create-Sound :
        (c : Creator)
        → Inv size cv base c a w
        → CreatorSound (creator_left c) a (create size cv c w)
    create-Sound (clears send_ring) v = (
      record {
        at_send = Fits-clear (sent size cv base) (send_at base w) (got_of a send_ring) v.at_send;
        at_recv = v.at_recv;
        free_from = v.free_from;
        creator_knows = tt;
        attacher_knows = v.attacher_knows;
      },
      refl,
    )
    create-Sound (clears recv_ring) v = (
      record {
        at_send = v.at_send;
        at_recv =
            Fits-clear (received size cv base) (recv_at base w) (got_of a recv_ring) v.at_recv;
        free_from = v.free_from;
        creator_knows = tt;
        attacher_knows = v.attacher_knows;
      },
      refl,
    )
    create-Sound (locks send_ring) v =
        let (free, fits) =
          Fits-lock (sent size cv base) (send_at base w) (got_of a send_ring) v.at_send in
        subst
          (λ b. CreatorSound 8 a (
            when_free b
              (record w { locked = set send_ring true w.locked; creator = opens send_ring })))
          (sym free)
          (
            record {
              at_send = fits;
              at_recv = v.at_recv;
              free_from = v.free_from;
              creator_knows = tt;
              attacher_knows = v.attacher_knows;
            },
            refl,
          )
    create-Sound (locks recv_ring) v =
        let (free, fits) =
          Fits-lock (received size cv base) (recv_at base w) (got_of a recv_ring) v.at_recv in
        subst
          (λ b. CreatorSound 4 a (
            when_free b
              (record w { locked = set recv_ring true w.locked; creator = opens recv_ring })))
          (sym free)
          (
            record {
              at_send = v.at_send;
              at_recv = fits;
              free_from = v.free_from;
              creator_knows = tt;
              attacher_knows = v.attacher_knows;
            },
            refl,
          )
    create-Sound (opens send_ring) v =
        let (absent_name, fits) =
          Fits-open (sent size cv base) (send_at base w) (got_of a send_ring) v.at_send in
        let number : w.fresh ≡ base = omega (arith, v.free_from) in
        subst (λ o. CreatorSound 7 a (goes (open_or_make o w send_ring))) (sym absent_name)
          (
            record {
              at_send =
                  subst
                    (λ k. Send size cv base raw (got_of a send_ring) (record (send_at base w) {
                      name = some k;
                      object = put k none w.objects base;
                    }))
                    (sym number)
                    (subst
                      (λ o.
                        Send size cv base raw (got_of a send_ring)
                          (record (send_at base w) { name = some base; object = o }))
                      (sym (put_same base none w.objects)) fits);
              at_recv =
                  subst
                    (λ o.
                      Recv size cv base absent (got_of a recv_ring)
                        (record (recv_at base w) { object = o }))
                    (sym (
                      ap (λ k. put k none w.objects (base + 1)) number
                      ∙ recv_kept size cv base none w.objects))
                    v.at_recv;
              free_from = omega (arith, number);
              creator_knows = number;
              attacher_knows = v.attacher_knows;
            },
            refl,
          )
    create-Sound (opens recv_ring) v =
        let (absent_name, fits) =
          Fits-open (received size cv base) (recv_at base w) (got_of a recv_ring) v.at_recv in
        let number : w.fresh ≡ base + 1 = omega (arith, v.free_from) in
        subst (λ o. CreatorSound 3 a (goes (open_or_make o w recv_ring))) (sym absent_name)
          (
            record {
              at_send =
                  subst
                    (λ o.
                      Send size cv base out (got_of a send_ring)
                        (record (send_at base w) { object = o }))
                    (sym (
                      ap (λ k. put k none w.objects base) number
                      ∙ send_kept size cv base none w.objects))
                    v.at_send;
              at_recv =
                  subst
                    (λ k. Recv size cv base raw (got_of a recv_ring) (record (recv_at base w) {
                      name = some k;
                      object = put k none w.objects (base + 1);
                    }))
                    (sym number)
                    (subst
                      (λ o.
                        Recv size cv base raw (got_of a recv_ring)
                          (record (recv_at base w) { name = some (base + 1); object = o }))
                      (sym (put_same (base + 1) none w.objects)) fits);
              free_from = omega (arith, number);
              creator_knows = number;
              attacher_knows = v.attacher_knows;
            },
            refl,
          )
    create-Sound (inits send_ring k) v =
        let (raw_object, fits) =
          Fits-init (sent size cv base) (send_at base w) (got_of a send_ring) v.at_send in
        let content : some (View.init (memory size (w.objects base)) size cv) ≡ some (new size cv) =
          ap (λ o. some (View.init (memory size o) size cv)) raw_object in
        subst (λ x. CreatorSound 6 a (create size cv (inits send_ring x) w)) (sym v.creator_knows)
          (
            record {
              at_send =
                  subst
                    (λ o.
                      Send size cv base filled (got_of a send_ring)
                        (record (send_at base w) { object = o; made = some base }))
                    (sym (put_same base _ w.objects ∙ content)) fits;
              at_recv =
                  subst
                    (λ o.
                      Recv size cv base absent (got_of a recv_ring)
                        (record (recv_at base w) { object = o }))
                    (sym (recv_kept size cv base _ w.objects)) v.at_recv;
              free_from = v.free_from;
              creator_knows = tt;
              attacher_knows = v.attacher_knows;
            },
            refl,
          )
    create-Sound (inits recv_ring k) v =
        let (raw_object, fits) =
          Fits-init (received size cv base) (recv_at base w) (got_of a recv_ring) v.at_recv in
        let content : some (View.init (memory size (w.objects (base + 1))) size cv)
            ≡ some (new size cv) =
          ap (λ o. some (View.init (memory size o) size cv)) raw_object in
        subst (λ x. CreatorSound 2 a (create size cv (inits recv_ring x) w)) (sym v.creator_knows)
          (
            record {
              at_send =
                  subst
                    (λ o.
                      Send size cv base out (got_of a send_ring)
                        (record (send_at base w) { object = o }))
                    (sym (send_kept size cv base _ w.objects)) v.at_send;
              at_recv =
                  subst
                    (λ o.
                      Recv size cv base filled (got_of a recv_ring)
                        (record (recv_at base w) { object = o; made = some (base + 1) }))
                    (sym (put_same (base + 1) _ w.objects ∙ content)) fits;
              free_from = v.free_from;
              creator_knows = tt;
              attacher_knows = v.attacher_knows;
            },
            refl,
          )
    create-Sound (frees send_ring) v = (
      record {
        at_send = Fits-free (sent size cv base) (send_at base w) (got_of a send_ring) v.at_send;
        at_recv = v.at_recv;
        free_from = v.free_from;
        creator_knows = tt;
        attacher_knows = v.attacher_knows;
      },
      refl,
    )
    create-Sound (frees recv_ring) v = (
      record {
        at_send = v.at_send;
        at_recv = Fits-free (received size cv base) (recv_at base w) (got_of a recv_ring) v.at_recv;
        free_from = v.free_from;
        creator_knows = tt;
        attacher_knows = v.attacher_knows;
      },
      refl,
    )
    create-Sound up v = refl
