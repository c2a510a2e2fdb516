-- ===== src/MimeTypes/Table/ToC.antt =====
-- libs/static_files/src/static_files_types.inl: the rows from 123 to cxx.
use Prim.Native.String.{String}
use mathlib.Core.List.{List, [], ◌∷◌}

unfoldable pub types_to_c : List (String × String)
types_to_c =
    ("123", "application/vnd.lotus-1-2-3")
    ∷ ("3dml", "text/vnd.in3d.3dml")
    ∷ ("3ds", "image/x-3ds")
    ∷ ("3g2", "video/3gpp2")
    ∷ ("3gp", "video/3gpp")
    ∷ ("3gpp", "video/3gpp")
    ∷ ("7z\0", "application/x-7z-compressed")
    ∷ ("aab", "application/x-authorware-bin")
    ∷ ("aac", "audio/x-aac")
    ∷ ("aam", "application/x-authorware-map")
    ∷ ("aas", "application/x-authorware-seg")
    ∷ ("abw", "application/x-abiword")
    ∷ ("ac\0", "application/pkix-attr-cert")
    ∷ ("acc", "application/vnd.americandynamics.acc")
    ∷ ("ace", "application/x-ace-compressed")
    ∷ ("acu", "application/vnd.acucobol")
    ∷ ("adp", "audio/adpcm")
    ∷ ("aep", "application/vnd.audiograph")
    ∷ ("afm", "application/x-font-type1")
    ∷ ("afp", "application/vnd.ibm.modcap")
    ∷ ("ai\0", "application/postscript")
    ∷ ("aif", "audio/x-aiff")
    ∷ ("aifc", "audio/x-aiff")
    ∷ ("aiff", "audio/x-aiff")
    ∷ ("air", "application/vnd.adobe.air-application-installer-package+zip")
    ∷ ("ait", "application/vnd.dvb.ait")
    ∷ ("ami", "application/vnd.amiga.ami")
    ∷ ("apk", "application/vnd.android.package-archive")
    ∷ ("apng", "image/apng")
    ∷ ("apr", "application/vnd.lotus-approach")
    ∷ ("arc", "application/x-freearc")
    ∷ ("arj", "application/x-arj")
    ∷ ("asc", "application/pgp-signature")
    ∷ ("asf", "video/x-ms-asf")
    ∷ ("asm", "text/x-asm")
    ∷ ("aso", "application/vnd.accpac.simply.aso")
    ∷ ("asx", "video/x-ms-asf")
    ∷ ("atc", "application/vnd.acucorp")
    ∷ ("atom", "application/atom+xml")
    ∷ ("atx", "application/vnd.antix.game-component")
    ∷ ("au\0", "audio/basic")
    ∷ ("avi", "video/x-msvideo")
    ∷ ("aw\0", "application/applixware")
    ∷ ("azf", "application/vnd.airzip.filesecure.azf")
    ∷ ("azs", "application/vnd.airzip.filesecure.azs")
    ∷ ("azw", "application/vnd.amazon.ebook")
    ∷ ("bat", "application/x-msdownload")
    ∷ ("bdf", "application/x-font-bdf")
    ∷ ("bdm", "application/vnd.syncml.dm+wbxml")
    ∷ ("bdoc", "application/bdoc")
    ∷ ("bed", "application/vnd.realvnc.bed")
    ∷ ("bh2", "application/vnd.fujitsu.oasysprs")
    ∷ ("bin", "application/octet-stream")
    ∷ ("blb", "application/x-blorb")
    ∷ ("bmi", "application/vnd.bmi")
    ∷ ("bmp", "image/bmp")
    ∷ ("book", "application/vnd.framemaker")
    ∷ ("box", "application/vnd.previewsystems.box")
    ∷ ("boz", "application/x-bzip2")
    ∷ ("bpk", "application/octet-stream")
    ∷ ("btif", "image/prs.btif")
    ∷ ("bz\0", "application/x-bzip")
    ∷ ("bz2", "application/x-bzip2")
    ∷ ("c\0\0", "text/x-c")
    ∷ ("c4d", "application/vnd.clonk.c4group")
    ∷ ("c4f", "application/vnd.clonk.c4group")
    ∷ ("c4g", "application/vnd.clonk.c4group")
    ∷ ("c4p", "application/vnd.clonk.c4group")
    ∷ ("c4u", "application/vnd.clonk.c4group")
    ∷ ("cab", "application/vnd.ms-cab-compressed")
    ∷ ("caf", "audio/x-caf")
    ∷ ("cap", "application/vnd.tcpdump.pcap")
    ∷ ("car", "application/vnd.curl.car")
    ∷ ("cat", "application/vnd.ms-pki.seccat")
    ∷ ("cb7", "application/x-cbr")
    ∷ ("cba", "application/x-cbr")
    ∷ ("cbr", "application/x-cbr")
    ∷ ("cbt", "application/x-cbr")
    ∷ ("cbz", "application/x-cbr")
    ∷ ("cc\0", "text/x-c")
    ∷ ("cco", "application/x-cocoa")
    ∷ ("cct", "application/x-director")
    ∷ ("cdf", "application/x-netcdf")
    ∷ ("cdx", "chemical/x-cdx")
    ∷ ("cdy", "application/vnd.cinderella")
    ∷ ("cer", "application/pkix-cert")
    ∷ ("cfs", "application/x-cfs-compressed")
    ∷ ("cgm", "image/cgm")
    ∷ ("chat", "application/x-chat")
    ∷ ("chm", "application/vnd.ms-htmlhelp")
    ∷ ("chrt", "application/vnd.kde.kchart")
    ∷ ("cif", "chemical/x-cif")
    ∷ ("cii", "application/vnd.anser-web-certificate-issue-initiation")
    ∷ ("cil", "application/vnd.ms-artgalry")
    ∷ ("cla", "application/vnd.claymore")
    ∷ ("clkk", "application/vnd.crick.clicker.keyboard")
    ∷ ("clkp", "application/vnd.crick.clicker.palette")
    ∷ ("clkt", "application/vnd.crick.clicker.template")
    ∷ ("clkw", "application/vnd.crick.clicker.wordbank")
    ∷ ("clkx", "application/vnd.crick.clicker")
    ∷ ("clp", "application/x-msclip")
    ∷ ("cmc", "application/vnd.cosmocaller")
    ∷ ("cmdf", "chemical/x-cmdf")
    ∷ ("cml", "chemical/x-cml")
    ∷ ("cmp", "application/vnd.yellowriver-custom-menu")
    ∷ ("cmx", "image/x-cmx")
    ∷ ("cod", "application/vnd.rim.cod")
    ∷ ("com", "application/x-msdownload")
    ∷ ("conf", "text/plain")
    ∷ ("cpio", "application/x-cpio")
    ∷ ("cpp", "text/x-c")
    ∷ ("cpt", "application/mac-compactpro")
    ∷ ("crd", "application/x-mscardfile")
    ∷ ("crl", "application/pkix-crl")
    ∷ ("crt", "application/x-x509-ca-cert")
    ∷ ("crx", "application/x-chrome-extension")
    ∷ ("csh", "application/x-csh")
    ∷ ("csml", "chemical/x-csml")
    ∷ ("csp", "application/vnd.commonspace")
    ∷ ("css", "text/css")
    ∷ ("cst", "application/x-director")
    ∷ ("csv", "text/csv")
    ∷ ("cu\0", "application/cu-seeme")
    ∷ ("curl", "text/vnd.curl")
    ∷ ("cww", "application/prs.cww")
    ∷ ("cxt", "application/x-director")
    ∷ ("cxx", "text/x-c")
    ∷ []
