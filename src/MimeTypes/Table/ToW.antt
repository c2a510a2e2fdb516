-- ===== src/MimeTypes/Table/ToW.antt =====
-- libs/static_files/src/static_files_types.inl: the rows from t\0\0 to wvx.
use Prim.Native.String.{String}
use mathlib.Core.List.{List, [], ◌∷◌}

unfoldable pub types_to_w : List (String × String)
types_to_w =
    ("t\0\0", "text/troff")
    ∷ ("t3\0", "application/x-t3vm-image")
    ∷ ("tao", "application/vnd.tao.intent-module-archive")
    ∷ ("tar", "application/x-tar")
    ∷ ("tcap", "application/vnd.3gpp2.tcap")
    ∷ ("tcl", "application/x-tcl")
    ∷ ("tei", "application/tei+xml")
    ∷ ("tex", "application/x-tex")
    ∷ ("texi", "application/x-texinfo")
    ∷ ("text", "text/plain")
    ∷ ("tfi", "application/thraud+xml")
    ∷ ("tfm", "application/x-tex-tfm")
    ∷ ("tga", "image/x-tga")
    ∷ ("thmx", "application/vnd.ms-officetheme")
    ∷ ("tif", "image/tiff")
    ∷ ("tiff", "image/tiff")
    ∷ ("tk\0", "application/x-tcl")
    ∷ ("tmo", "application/vnd.tmobile-livetv")
    ∷ ("tpl", "application/vnd.groove-tool-template")
    ∷ ("tpt", "application/vnd.trid.tpt")
    ∷ ("tr\0", "text/troff")
    ∷ ("tra", "application/vnd.trueapp")
    ∷ ("trm", "application/x-msterminal")
    ∷ ("ts\0", "video/mp2t")
    ∷ ("tsd", "application/timestamped-data")
    ∷ ("tsv", "text/tab-separated-values")
    ∷ ("ttc", "font/collection")
    ∷ ("ttf", "font/ttf")
    ∷ ("ttl", "text/turtle")
    ∷ ("twd", "application/vnd.simtech-mindmapper")
    ∷ ("twds", "application/vnd.simtech-mindmapper")
    ∷ ("txd", "application/vnd.genomatix.tuxedo")
    ∷ ("txf", "application/vnd.mobius.txf")
    ∷ ("txt", "text/plain")
    ∷ ("u32", "application/x-authorware-bin")
    ∷ ("udeb", "application/x-debian-package")
    ∷ ("ufd", "application/vnd.ufdl")
    ∷ ("ufdl", "application/vnd.ufdl")
    ∷ ("ulx", "application/x-glulx")
    ∷ ("umj", "application/vnd.umajin")
    ∷ ("uoml", "application/vnd.uoml+xml")
    ∷ ("uri", "text/uri-list")
    ∷ ("uris", "text/uri-list")
    ∷ ("urls", "text/uri-list")
    ∷ ("utz", "application/vnd.uiq.theme")
    ∷ ("uu\0", "text/x-uuencode")
    ∷ ("uva", "audio/vnd.dece.audio")
    ∷ ("uvd", "application/vnd.dece.data")
    ∷ ("uvf", "application/vnd.dece.data")
    ∷ ("uvg", "image/vnd.dece.graphic")
    ∷ ("uvh", "video/vnd.dece.hd")
    ∷ ("uvi", "image/vnd.dece.graphic")
    ∷ ("uvm", "video/vnd.dece.mobile")
    ∷ ("uvp", "video/vnd.dece.pd")
    ∷ ("uvs", "video/vnd.dece.sd")
    ∷ ("uvt", "application/vnd.dece.ttml+xml")
    ∷ ("uvu", "video/vnd.uvvu.mp4")
    ∷ ("uvv", "video/vnd.dece.video")
    ∷ ("uvva", "audio/vnd.dece.audio")
    ∷ ("uvvd", "application/vnd.dece.data")
    ∷ ("uvvf", "application/vnd.dece.data")
    ∷ ("uvvg", "image/vnd.dece.graphic")
    ∷ ("uvvh", "video/vnd.dece.hd")
    ∷ ("uvvi", "image/vnd.dece.graphic")
    ∷ ("uvvm", "video/vnd.dece.mobile")
    ∷ ("uvvp", "video/vnd.dece.pd")
    ∷ ("uvvs", "video/vnd.dece.sd")
    ∷ ("uvvt", "application/vnd.dece.ttml+xml")
    ∷ ("uvvu", "video/vnd.uvvu.mp4")
    ∷ ("uvvv", "video/vnd.dece.video")
    ∷ ("uvvx", "application/vnd.dece.unspecified")
    ∷ ("uvvz", "application/vnd.dece.zip")
    ∷ ("uvx", "application/vnd.dece.unspecified")
    ∷ ("uvz", "application/vnd.dece.zip")
    ∷ ("vbox", "application/x-virtualbox-vbox")
    ∷ ("vcd", "application/x-cdlink")
    ∷ ("vcf", "text/x-vcard")
    ∷ ("vcg", "application/vnd.groove-vcard")
    ∷ ("vcs", "text/x-vcalendar")
    ∷ ("vcx", "application/vnd.vcx")
    ∷ ("vdi", "application/x-virtualbox-vdi")
    ∷ ("vhd", "application/x-virtualbox-vhd")
    ∷ ("vis", "application/vnd.visionary")
    ∷ ("viv", "video/vnd.vivo")
    ∷ ("vmdk", "application/x-virtualbox-vmdk")
    ∷ ("vob", "video/x-ms-vob")
    ∷ ("vor", "application/vnd.stardivision.writer")
    ∷ ("vox", "application/x-authorware-bin")
    ∷ ("vrml", "model/vrml")
    ∷ ("vsd", "application/vnd.visio")
    ∷ ("vsf", "application/vnd.vsf")
    ∷ ("vss", "application/vnd.visio")
    ∷ ("vst", "application/vnd.visio")
    ∷ ("vsw", "application/vnd.visio")
    ∷ ("vtt", "text/vtt")
    ∷ ("vtu", "model/vnd.vtu")
    ∷ ("vxml", "application/voicexml+xml")
    ∷ ("w3d", "application/x-director")
    ∷ ("wad", "application/x-doom")
    ∷ ("wadl", "application/vnd.sun.wadl+xml")
    ∷ ("war", "application/java-archive")
    ∷ ("wasm", "application/wasm")
    ∷ ("wav", "audio/wav")
    ∷ ("wax", "audio/x-ms-wax")
    ∷ ("wbmp", "image/vnd.wap.wbmp")
    ∷ ("wbs", "application/vnd.criticaltools.wbs+xml")
    ∷ ("wcm", "application/vnd.ms-works")
    ∷ ("wdb", "application/vnd.ms-works")
    ∷ ("wdp", "image/vnd.ms-photo")
    ∷ ("weba", "audio/webm")
    ∷ ("webm", "video/webm")
    ∷ ("webp", "image/webp")
    ∷ ("wg\0", "application/vnd.pmi.widget")
    ∷ ("wgt", "application/widget")
    ∷ ("wks", "application/vnd.ms-works")
    ∷ ("wm\0", "video/x-ms-wm")
    ∷ ("wma", "audio/x-ms-wma")
    ∷ ("wmd", "application/x-ms-wmd")
    ∷ ("wmf", "application/x-msmetafile")
    ∷ ("wml", "text/vnd.wap.wml")
    ∷ ("wmlc", "application/vnd.wap.wmlc")
    ∷ ("wmls", "text/vnd.wap.wmlscript")
    ∷ ("wmv", "video/x-ms-wmv")
    ∷ ("wmx", "video/x-ms-wmx")
    ∷ ("wmz", "application/x-ms-wmz")
    ∷ ("woff", "font/woff")
    ∷ ("wpd", "application/vnd.wordperfect")
    ∷ ("wpl", "application/vnd.ms-wpl")
    ∷ ("wps", "application/vnd.ms-works")
    ∷ ("wqd", "application/vnd.wqd")
    ∷ ("wri", "application/x-mswrite")
    ∷ ("wrl", "model/vrml")
    ∷ ("wsdl", "application/wsdl+xml")
    ∷ ("wtb", "application/vnd.webturbo")
    ∷ ("wvx", "video/x-ms-wvx")
    ∷ []
