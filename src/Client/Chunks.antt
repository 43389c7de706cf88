-- ===== src/Client/Chunks.antt =====
-- src/net/client.rs: how the bytes of the requests are cut into reads makes no difference.
use ferrium.Common.{
  ℕ, zero, suc, ◌<◌, List, [], ◌∷◌, ◌++◌, append_assoc, append-nil, Bytes, length, length-append,
  ◌≡◌, ◌≢◌, refl, sym, ap, ◌∙◌, arith, All,
}
use mathlib.Core.Path.{fun_ext}
use ferrium.Protocol.Resp.{
  Frame, encode, Parsed, ok, incomplete, invalid, Decoded, frame, partial, protocol_error, decoded,
  decode, parse,
}
use ferrium.Protocol.Progress.{length-decode}
use ferrium.Protocol.Streaming.{AfterMore, decode-append}
use ferrium.Client.{Handle, answer}
use ferrium.Client.Connection.{
  Served, Progress, resume_at, waiting, hung_up, failed, prepend, resume, serve_decoded, serve,
  drain, handle_connection,
}

-- All bytes that the reads give.
abbrev pub concat : List Bytes → Bytes
concat [] = []
concat (c ∷ cs) = c ++ concat cs

pub decode-partial : (s r : Bytes) → decode s ≡ (partial, r) → r ≡ s
unfolding decode
decode-partial s r e = of_parse (parse (suc (length s)) s) e
  where
    of_parse : (m : Parsed (Frame × Bytes)) → decoded s m ≡ (partial, r) → r ≡ s
    of_parse (ok (f, rest)) e = cc
    of_parse incomplete e = cc
    of_parse (invalid msg) e = cc

module _ {W : Type 0} where
  resume_at-prepend :
      (p : Progress) (x : Bytes) (r : Served W) (k : Bytes → W → Served W)
      → resume_at p (prepend x r) k ≡ prepend x (resume_at p r k)
  unfolding resume_at prepend
  resume_at-prepend waiting x r k =
      ap (λ out. record (k r.buf r.world) { written = out })
        (append_assoc x r.written (k r.buf r.world).written)
  resume_at-prepend hung_up x r k = refl
  resume_at-prepend (failed e) x r k = refl

  resume-prepend :
      (x : Bytes) (r : Served W) (k : Bytes → W → Served W)
      → resume (prepend x r) k ≡ prepend x (resume r k)
  unfolding resume prepend
  resume-prepend x r k = resume_at-prepend r.progress x r k

  resume-agree :
      (r : Served W) (k k' : Bytes → W → Served W)
      → ((s : Bytes) (w : W) → k s w ≡ k' s w)
      → resume r k ≡ resume r k'
  resume-agree r k k' h = ap (resume r) (fun_ext λ s. fun_ext λ w. h s w)

module _ {W : Type 0} (debug : Frame → Bytes) (h : Handle W) where
  abbrev loop : ℕ → Bytes → W → Served W
  loop = serve debug h

  serve_decoded-agree :
      (next next' : Bytes → W → Served W) (d : Decoded × Bytes) (w : W)
      → ((x : Frame) (rest : Bytes) (w' : W) → d ≡ (frame x, rest) → next rest w' ≡ next' rest w')
      → serve_decoded debug h next d w ≡ serve_decoded debug h next' d w
  unfolding serve_decoded
  serve_decoded-agree next next' (frame x, rest) w k =
      ap (prepend (encode (answer debug h x w).0)) (k x rest (answer debug h x w).1 refl)
  serve_decoded-agree next next' (partial, rest) w k = refl
  serve_decoded-agree next next' (protocol_error msg, rest) w k = refl

  -- More fuel than the buffer is long changes nothing.
  pub serve_fuel :
      (f g : ℕ) (s : Bytes) (w : W)
      → length s < f
      → length s < g
      → serve debug h f s w ≡ serve debug h g s w
  unfolding serve
  serve_fuel zero g s w i j = absurd (omega arith)
  serve_fuel (suc f) zero s w i j = absurd (omega arith)
  serve_fuel (suc f) (suc g) s w i j =
      serve_decoded-agree (loop f) (loop g) (decode s) w λ x rest w' e.
        let shorter = length-decode s rest x e in serve_fuel f g rest w' (omega arith) (omega arith)

  -- What a turn does when `t` has arrived already.
  serve_decoded-append :
      (next next' : Bytes → W → Served W) (k : Bytes → W → Served W) (t : Bytes)
      (d d' : Decoded × Bytes) (w : W)
      → AfterMore t d d'
      → ((x : Frame) (rest : Bytes) (w' : W)
          → d ≡ (frame x, rest)
          → next' (rest ++ t) w' ≡ resume (next rest w') k)
      → ((rest : Bytes) → d ≡ (partial, rest) → serve_decoded debug h next' d' w ≡ k rest w)
      → serve_decoded debug h next' d' w ≡ resume (serve_decoded debug h next d w) k
  unfolding serve_decoded resume resume_at prepend
  serve_decoded-append next next' k t (frame x, rest) d' w a ih wait = rw a (
      ap (prepend (encode (answer debug h x w).0)) (ih x rest (answer debug h x w).1 refl)
      ∙ sym (resume-prepend (encode (answer debug h x w).0) (next rest (answer debug h x w).1) k))
  serve_decoded-append next next' k t (partial, rest) d' w a ih wait = wait rest refl
  serve_decoded-append next next' k t (protocol_error msg, rest) d' w a ih wait = rw a refl

  serve-append :
      (f g : ℕ) (s t : Bytes) (w : W)
      → length s < f
      → length (s ++ t) < g
      → loop g (s ++ t) w ≡ resume (loop f s w) (λ s' w'. drain debug h (s' ++ t) w')
  unfolding serve drain
  serve-append zero g s t w i j = absurd (omega arith)
  serve-append (suc f) zero s t w i j = absurd (omega arith)
  serve-append (suc f) (suc g) s t w i j =
      serve_decoded-append (loop f) (loop g) (λ s' w'. drain debug h (s' ++ t) w') t (decode s)
        (decode (s ++ t)) w (decode-append s t)
        (λ x rest w' e.
          let shorter = length-decode s rest x e in
          let l = length-append s t in
          let l' = length-append rest t in serve-append f g rest t w' (omega arith) (omega arith))
        λ rest e.
          rw (decode-partial s rest e)
            (serve_fuel (suc g) (suc (length (s ++ t))) (s ++ t) w j (omega arith))

  -- Whatever bytes arrive, how they are cut into nonempty reads makes no difference to the replies
  -- written, the buffer left, the end of the loop and the state of the node.
  pub handle_connection-chunks :
      (cs : List Bytes) (buf : Bytes) (w : W)
      → All (λ c. c ≢ []) cs
      → handle_connection debug h cs buf w ≡ drain debug h (buf ++ concat cs) w
  unfolding handle_connection drain
  handle_connection-chunks [] buf w n = ap (λ s. drain debug h s w) (sym (append-nil buf))
  handle_connection-chunks ([] ∷ cs) buf w (n, ns) = absurd (n refl)
  handle_connection-chunks ((b ∷ c) ∷ cs) buf w (n, ns) =
      resume-agree (drain debug h buf w) _ (λ s w'. drain debug h (s ++ ((b ∷ c) ++ concat cs)) w')
        (λ s w'.
          handle_connection-chunks cs (s ++ (b ∷ c)) w' ns
          ∙ ap (λ s'. drain debug h s' w') (append_assoc s (b ∷ c) (concat cs)))
      ∙ sym (
          serve-append (suc (length buf)) (suc (length (buf ++ ((b ∷ c) ++ concat cs)))) buf
            ((b ∷ c) ++ concat cs) w (omega arith) (omega arith))
