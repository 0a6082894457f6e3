-- ===== src/Protocols/Kinds.antt =====
-- The five kinds can be sent.
use terracotta_ffi.Base.{refl, codes, arith}
use terracotta_ffi.Base.Utf8.{encode, encode_char}
use terracotta_ffi.Scaffolding.Exchange.{IsKind}

pub ping-IsKind : IsKind (codes "c") (codes "ping")
unfolding encode encode_char
ping-IsKind = record {
  namespace_scalar = (refl, tt);
  path_scalar = (refl, (refl, (refl, (refl, tt))));
  namespace_plain = omega arith;
  path_plain = omega arith;
  short = omega arith;
}

pub protocols-IsKind : IsKind (codes "c") (codes "protocols")
unfolding encode encode_char
protocols-IsKind = record {
  namespace_scalar = (refl, tt);
  path_scalar = (refl, (refl, (refl, (refl, (refl, (refl, (refl, (refl, (refl, tt)))))))));
  namespace_plain = omega arith;
  path_plain = omega arith;
  short = omega arith;
}

pub server_port-IsKind : IsKind (codes "c") (codes "server_port")
unfolding encode encode_char
server_port-IsKind = record {
  namespace_scalar = (refl, tt);
  path_scalar =
      (refl, (refl, (refl, (refl, (refl, (refl, (refl, (refl, (refl, (refl, (refl, tt)))))))))));
  namespace_plain = omega arith;
  path_plain = omega arith;
  short = omega arith;
}

pub player_ping-IsKind : IsKind (codes "c") (codes "player_ping")
unfolding encode encode_char
player_ping-IsKind = record {
  namespace_scalar = (refl, tt);
  path_scalar =
      (refl, (refl, (refl, (refl, (refl, (refl, (refl, (refl, (refl, (refl, (refl, tt)))))))))));
  namespace_plain = omega arith;
  path_plain = omega arith;
  short = omega arith;
}

pub profiles-IsKind : IsKind (codes "c") (codes "player_profiles_list")
unfolding encode encode_char
profiles-IsKind = record {
  namespace_scalar = (refl, tt);
  path_scalar = (
    refl,
    (
      refl,
      (
        refl,
        (
          refl,
          (
            refl,
            (
              refl,
              (
                refl,
                (
                  refl,
                  (
                    refl,
                    (
                      refl,
                      (
                        refl,
                        (refl, (refl, (refl, (refl, (refl, (refl, (refl, (refl, (refl, tt))))))))),
                      ),
                    ),
                  ),
                ),
              ),
            ),
          ),
        ),
      ),
    ),
  );
  namespace_plain = omega arith;
  path_plain = omega arith;
  short = omega arith;
}
