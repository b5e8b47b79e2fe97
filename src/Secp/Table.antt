-- ===== src/Secp/Table.antt =====
-- `BATCH_G` of kernels/secp256k1_mrspike.cu: the multiples G to 32 G of the generator;
-- and `secp256k1_public_add_batch` over it.
use vanity_generator_evm_svm.Common.{List, [], ◌∷◌, Option, none, some, map, true, ℕ}
use vanity_generator_evm_svm.Secp.{
  Uint256, uint256, CurvePoint, point, FieldOps, uint32_to_uint256, read_point, write_point,
}
use vanity_generator_evm_svm.Secp.{batch_from, add_generators}

unfoldable pub batch_g : List CurvePoint
batch_g =
    point
      (uint256 0x79be667e 0xf9dcbbac 0x55a06295 0xce870b07 0x029bfcdb 0x2dce28d9 0x59f2815b
        0x16f81798)
      (uint256 0x483ada77 0x26a3c465 0x5da4fbfc 0x0e1108a8 0xfd17b448 0xa6855419 0x9c47d08f
        0xfb10d4b8)
    ∷ point
        (uint256 0xc6047f94 0x41ed7d6d 0x3045406e 0x95c07cd8 0x5c778e4b 0x8cef3ca7 0xabac09b9
          0x5c709ee5)
        (uint256 0x1ae168fe 0xa63dc339 0xa3c58419 0x466ceaee 0xf7f63265 0x3266d0e1 0x236431a9
          0x50cfe52a)
    ∷ point
        (uint256 0xf9308a01 0x9258c310 0x49344f85 0xf89d5229 0xb531c845 0x836f99b0 0x8601f113
          0xbce036f9)
        (uint256 0x388f7b0f 0x632de814 0x0fe337e6 0x2a37f356 0x6500a999 0x34c2231b 0x6cb9fd75
          0x84b8e672)
    ∷ point
        (uint256 0xe493dbf1 0xc10d80f3 0x581e4904 0x930b1404 0xcc6c1390 0x0ee07584 0x74fa94ab
          0xe8c4cd13)
        (uint256 0x51ed993e 0xa0d455b7 0x5642e209 0x8ea51448 0xd967ae33 0xbfbdfe40 0xcfe97bdc
          0x47739922)
    ∷ point
        (uint256 0x2f8bde4d 0x1a072093 0x55b4a725 0x0a5c5128 0xe88b84bd 0xdc619ab7 0xcba8d569
          0xb240efe4)
        (uint256 0xd8ac2226 0x36e5e3d6 0xd4dba9dd 0xa6c9c426 0xf788271b 0xab0d6840 0xdca87d3a
          0xa6ac62d6)
    ∷ point
        (uint256 0xfff97bd5 0x755eeea4 0x20453a14 0x355235d3 0x82f6472f 0x8568a18b 0x2f057a14
          0x60297556)
        (uint256 0xae12777a 0xacfbb620 0xf3be9601 0x7f45c560 0xde80f0f6 0x518fe4a0 0x3c870c36
          0xb075f297)
    ∷ point
        (uint256 0x5cbdf064 0x6e5db4ea 0xa398f365 0xf2ea7a0e 0x3d419b7e 0x0330e39c 0xe92bdded
          0xcac4f9bc)
        (uint256 0x6aebca40 0xba255960 0xa3178d6d 0x861a54db 0xa813d0b8 0x13fde7b5 0xa5082628
          0x087264da)
    ∷ point
        (uint256 0x2f01e5e1 0x5cca351d 0xaff3843f 0xb70f3c2f 0x0a1bdd05 0xe5af888a 0x67784ef3
          0xe10a2a01)
        (uint256 0x5c4da8a7 0x41539949 0x293d082a 0x132d13b4 0xc2e213d6 0xba5b7617 0xb5da2cb7
          0x6cbde904)
    ∷ point
        (uint256 0xacd484e2 0xf0c7f653 0x09ad178a 0x9f559abd 0xe0979697 0x4c57e714 0xc35f110d
          0xfc27ccbe)
        (uint256 0xcc338921 0xb0a7d9fd 0x64380971 0x763b61e9 0xadd888a4 0x375f8e0f 0x05cc262a
          0xc64f9c37)
    ∷ point
        (uint256 0xa0434d9e 0x47f3c862 0x35477c7b 0x1ae6ae5d 0x3442d49b 0x1943c2b7 0x52a68e2a
          0x47e247c7)
        (uint256 0x893aba42 0x5419bc27 0xa3b6c7e6 0x93a24c69 0x6f794c2e 0xd877a159 0x3cbee53b
          0x037368d7)
    ∷ point
        (uint256 0x774ae7f8 0x58a9411e 0x5ef4246b 0x70c65aac 0x5649980b 0xe5c17891 0xbbec1789
          0x5da008cb)
        (uint256 0xd984a032 0xeb6b5e19 0x0243dd56 0xd7b7b365 0x372db1e2 0xdff9d6a8 0x301d74c9
          0xc953c61b)
    ∷ point
        (uint256 0xd01115d5 0x48e7561b 0x15c38f00 0x4d734633 0x687cf441 0x9620095b 0xc5b0f470
          0x70afe85a)
        (uint256 0xa9f34ffd 0xc815e0d7 0xa8b64537 0xe17bd815 0x79238c5d 0xd9a86d52 0x6b051b13
          0xf4062327)
    ∷ point
        (uint256 0xf28773c2 0xd975288b 0xc7d1d205 0xc3748651 0xb075fbc6 0x610e58cd 0xdeeddf8f
          0x19405aa8)
        (uint256 0x0ab0902e 0x8d880a89 0x758212eb 0x65cdaf47 0x3a1a06da 0x521fa91f 0x29b5cb52
          0xdb03ed81)
    ∷ point
        (uint256 0x499fdf9e 0x895e719c 0xfd64e67f 0x07d38e32 0x26aa7b63 0x678949e6 0xe49b241a
          0x60e823e4)
        (uint256 0xcac2f6c4 0xb54e8551 0x90f044e4 0xa7b3d464 0x464279c2 0x7a3f95bc 0xc65f40d4
          0x03a13f5b)
    ∷ point
        (uint256 0xd7924d4f 0x7d43ea96 0x5a465ae3 0x095ff411 0x31e5946f 0x3c85f79e 0x44adbcf8
          0xe27e080e)
        (uint256 0x581e2872 0xa86c72a6 0x83842ec2 0x28cc6def 0xea40af2b 0xd896d3a5 0xc504dc9f
          0xf6a26b58)
    ∷ point
        (uint256 0xe60fce93 0xb59e9ec5 0x3011aabc 0x21c23e97 0xb2a31369 0xb87a5ae9 0xc44ee89e
          0x2a6dec0a)
        (uint256 0xf7e35073 0x99e59592 0x9db99f34 0xf5793710 0x1296891e 0x44d23f0b 0xe1f32cce
          0x69616821)
    ∷ point
        (uint256 0xdefdea4c 0xdb677750 0xa420fee8 0x07eacf21 0xeb9898ae 0x79b97687 0x66e4faa0
          0x4a2d4a34)
        (uint256 0x4211ab06 0x94635168 0xe997b0ea 0xd2a93dae 0xced1f4a0 0x4a95c0f6 0xcfb199f6
          0x9e56eb77)
    ∷ point
        (uint256 0x5601570c 0xb47f238d 0x2b0286db 0x4a990fa0 0xf3ba28d1 0xa319f5e7 0xcf55c2a2
          0x444da7cc)
        (uint256 0xc136c1dc 0x0cbeb930 0xe9e29804 0x3589351d 0x81d8e0bc 0x736ae2a1 0xf5192e5e
          0x8b061d58)
    ∷ point
        (uint256 0x2b4ea0a7 0x97a443d2 0x93ef5cff 0x444f4979 0xf06acfeb 0xd7e86d27 0x74756561
          0x38385b6c)
        (uint256 0x85e89bc0 0x37945d93 0xb343083b 0x5a1c8613 0x1a01f60c 0x50269763 0xb570c854
          0xe5c09b7a)
    ∷ point
        (uint256 0x4ce119c9 0x6e2fa357 0x200b559b 0x2f7dd5a5 0xf02d5290 0xaff74b03 0xf3e471b2
          0x73211c97)
        (uint256 0x12ba26dc 0xb10ec162 0x5da61fa1 0x0a844c67 0x61629482 0x71d96967 0x450288ee
          0x9233dc3a)
    ∷ point
        (uint256 0x352bbf4a 0x4cdd1256 0x4f93fa33 0x2ce33330 0x1d9ad402 0x71f81071 0x81340aef
          0x25be59d5)
        (uint256 0x321eb407 0x5348f534 0xd59c1825 0x9dda3e1f 0x4a1b3b2e 0x71b1039c 0x67bd3d8b
          0xcf81998c)
    ∷ point
        (uint256 0x421f5fc9 0xa2106544 0x5c96fdb9 0x1c0c1e2f 0x2431741c 0x72713b4b 0x99ddcb31
          0x6f31e9fc)
        (uint256 0x2b90f16d 0x11dabdb6 0x16f6db7e 0x225d1e14 0x743034b3 0x7b223115 0xdb20717a
          0xd1cd6781)
    ∷ point
        (uint256 0x2fa2104d 0x6b38d11b 0x02300105 0x59879124 0xe42ab8df 0xeff5ff29 0xdc9cdadd
          0x4ecacc3f)
        (uint256 0x02de1068 0x295dd865 0xb6456933 0x5bd5dd80 0x181d70ec 0xfc882648 0x423ba76b
          0x532b7d67)
    ∷ point
        (uint256 0xfe72c435 0x413d33d4 0x8ac09c91 0x61ba8b09 0x68321543 0x9d62b794 0x0502bda8
          0xb202e6ce)
        (uint256 0x6851de06 0x7ff24a68 0xd3ab47e0 0x9d729981 0x01dc88e3 0x6b4a9d22 0x978ed2fb
          0xcf58c5bf)
    ∷ point
        (uint256 0x9248279b 0x09b4d68d 0xab21a9b0 0x66edda83 0x263c3d84 0xe09572e2 0x69ca0cd7
          0xf5453714)
        (uint256 0x73016f7b 0xf234aade 0x5d1aa71b 0xdea2b1ff 0x3fc0de2a 0x887912ff 0xe54a32ce
          0x97cb3402)
    ∷ point
        (uint256 0x6687cdb5 0xb650d558 0xf40cbdef 0xc8e40997 0xc03fe1b2 0xabb84088 0x5e5cad81
          0x710c4c8a)
        (uint256 0x3fd502b3 0x111178b1 0x1a1fa873 0x825c7200 0x0ef8e529 0xf033f272 0xb32e83b2
          0x5c83ad64)
    ∷ point
        (uint256 0xdaed4f2b 0xe3a8bf27 0x8e70132f 0xb0beb752 0x2f570e14 0x4bf615c0 0x7e996d44
          0x3dee8729)
        (uint256 0xa69dce4a 0x7d6c98e8 0xd4a1aca8 0x7ef8d700 0x3f83c230 0xf3afa726 0xab40e522
          0x90be1c55)
    ∷ point
        (uint256 0x55eb67d7 0xb7238a70 0xa7fa6f64 0xd5dc3c82 0x6b31536d 0xa6eb344d 0xc39a66f9
          0x04f97968)
        (uint256 0x7d916a47 0xb2b58140 0x0b1e718b 0xf4042585 0x40973bce 0x1c95052d 0xd0689f2f
          0x493be3c8)
    ∷ point
        (uint256 0xc44d12c7 0x065d812e 0x8acf28d7 0xcbb19f90 0x11ecd9e9 0xfdf281b0 0xe6a3b5e8
          0x7d22e7db)
        (uint256 0x2119a460 0xce326cdc 0x76c45926 0xc982fdac 0x0e106e86 0x1edf61c5 0xa039063f
          0x0e0e6482)
    ∷ point
        (uint256 0x6d2b085e 0x9e382ed1 0x0b69fc31 0x1a03f864 0x1ccfff21 0x574de092 0x7513a49d
          0x9a688a00)
        (uint256 0xacb82eb9 0x3309ad1c 0xc739ddfa 0x33604a83 0x776238aa 0x0bd5ff24 0x8dbac47a
          0x17f388fb)
    ∷ point
        (uint256 0x6a245bf6 0xdc698504 0xc89a20cf 0xded60853 0x152b6953 0x36c28063 0xb61c65cb
          0xd269e6b4)
        (uint256 0xe022cf42 0xc2bd4a70 0x8b3f5126 0xf16a24ad 0x8b33ba48 0xd0423b6e 0xfd5e6348
          0x100d8a82)
    ∷ point
        (uint256 0xd30199d7 0x4fb5a22d 0x47b6e054 0xe2f378ce 0xdacffcb8 0x9904a61d 0x75d0dbd4
          0x07143e65)
        (uint256 0x95038d9d 0x0ae3d5c3 0xb3d6dec9 0xe9838065 0x1f760cc3 0x64ed8196 0x05b3ff1f
          0x24106ab9)
    ∷ []

-- What is written: the points of the batch, or in the degenerate case one addition after another.
unfoldable pub write_batch : FieldOps → List ℕ → Option (Uint256 × List CurvePoint) → List (List ℕ)
write_batch ops public none = add_generators ops 32 public
write_batch ops public (some (inverse, points)) = map write_point points

unfoldable pub secp256k1_public_add_batch : FieldOps → List ℕ → List (List ℕ)
secp256k1_public_add_batch ops public =
    write_batch ops public (batch_from ops (read_point public) true (uint32_to_uint256 1) batch_g)
