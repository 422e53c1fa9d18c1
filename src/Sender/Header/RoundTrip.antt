-- ===== src/Sender/Header/RoundTrip.antt =====
-- What the client prints in front of a transfer, the server reads back.
use ridingthecode.Common.{
  ℕ, ◌-◌, ◌<◌, ◌^◌, ◌≡◌, refl, ap, ◌∙◌, [], ◌∷◌, ◌++◌, arith, length, length-append, replicate,
  lt→ltb, length-replicate, append_assoc,
}
use ridingthecode.Common.Int.{pos}
use ridingthecode.Common.Text.{Bytes, Avoids}
use ridingthecode.Common.Decimal.{
  decimal, decimal-Avoids, length-decimal-le, is_digit, atoi, atoi-decimal,
}
use ridingthecode.Common.Fault.{ok}
use ridingthecode.Sender.Header.{
  header_size, print_int, flags, flags_text, field_to, grab_header_info,
}

field_to-append :
    (separator : ℕ) (xs rest : Bytes)
    → Avoids separator xs
    → field_to separator (xs ++ separator ∷ rest) ≡ ok (xs, rest)
unfolding field_to
field_to-append separator [] rest h = ground arith
field_to-append separator (x ∷ xs) rest h =
    rw (field_to-append separator xs rest h.1) (ground arith)

-- four fields and what is behind them
module _ (a b c d rest : Bytes) (h : Avoids b',' a) (k : Avoids b',' b) (l : Avoids b',' c)
    (m : Avoids b';' d) where
  four_fields :
      grab_header_info ((b';' ∷ (a ++ b',' ∷ (b ++ b',' ∷ (c ++ b',' ∷ (d ++ b';' ∷ []))))) ++ rest)
      ≡ ok (record { total_size = atoi a; packet_size = atoi b; packets = atoi c; mode = atoi d })
  unfolding grab_header_info
  four_fields =
      rw
        (
          apart,
          field_to-append b',' a _ h,
          field_to-append b',' b _ k,
          field_to-append b',' c _ l,
          field_to-append b';' d rest m,
        )
        refl
    where
      apart :
          (a ++ b',' ∷ (b ++ b',' ∷ (c ++ b',' ∷ (d ++ b';' ∷ [])))) ++ rest
          ≡ a ++ b',' ∷ (b ++ b',' ∷ (c ++ b',' ∷ (d ++ b';' ∷ rest)))
      apart =
          append_assoc a _ rest
          ∙ ap (λ t. a ++ b',' ∷ t)
              (append_assoc b _ rest
                ∙ ap (λ t. b ++ b',' ∷ t)
                    (append_assoc c _ rest
                      ∙ ap (λ t. c ++ b',' ∷ t) (append_assoc d (b';' ∷ []) rest)))

-- The client's header for a transfer, with numbers that fit an `int`, goes into its 50 bytes, and the
-- server reads the same numbers from it.
pub grab_header_info-flags :
    (total size packets mode : ℕ)
    → total < 2 ^ 31
    → size < 2 ^ 31
    → packets < 2 ^ 31
    → mode < 2 ^ 31
    → (memory : Bytes) × (flags (record {
      total_size = pos total;
      packet_size = pos size;
      packets = pos packets;
      mode = pos mode;
    })
        ≡ ok memory)
      × (length memory ≡ header_size)
      × (grab_header_info memory
          ≡ ok (record {
            total_size = pos total;
            packet_size = pos size;
            packets = pos packets;
            mode = pos mode;
          }))
unfolding flags print_int is_digit
grab_header_info-flags total size packets mode h k l m = (
  text ++ replicate (50 - length text) 0,
  rw (lt→ltb (length text) 50 short) refl,
  length-append text (replicate (50 - length text) 0)
      ∙ omega (arith, length-replicate {A = ℕ} (50 - length text) 0, short),
  four_fields (decimal total) (decimal size) (decimal packets) (decimal mode)
        (replicate (50 - length text) 0) (decimal-Avoids b',' total refl)
        (decimal-Avoids b',' size refl) (decimal-Avoids b',' packets refl)
        (decimal-Avoids b';' mode refl)
      ∙ rw (atoi-decimal total h, atoi-decimal size k, atoi-decimal packets l, atoi-decimal mode m)
          refl,
)
  where
    text : Bytes
    text = flags_text (record {
      total_size = pos total;
      packet_size = pos size;
      packets = pos packets;
      mode = pos mode;
    })

    short : length text < 50
    short = omega (
      arith,
      length-append (decimal total)
          (b',' ∷ (decimal size ++ b',' ∷ (decimal packets ++ b',' ∷ (decimal mode ++ b';' ∷ [])))),
      length-append (decimal size) (b',' ∷ (decimal packets ++ b',' ∷ (decimal mode ++ b';' ∷ []))),
      length-append (decimal packets) (b',' ∷ (decimal mode ++ b';' ∷ [])),
      length-append (decimal mode) (b';' ∷ []),
      length-decimal-le total h,
      length-decimal-le size k,
      length-decimal-le packets l,
      length-decimal-le mode m,
    )
